-- ===== src/Vpcs.antt =====
-- backend/validation/checks/vpcs.py: the verdicts on a VPCS node. A text is the list of its code
-- points. A console is a reply: a connection raises, or the node's answers come parsed.
pub mod Patterns
pub mod Pinging
pub mod Verdicts
use onlinetlabs.Base.{
  ℕ, zero, suc, ◌+◌, ◌-◌, ◌*◌, Bool, true, false, not, ◌&&◌, ◌||◌, List, [], ◌∷◌, Option, none,
  some, ltb, leb, ◌==◌, if◌then◌else◌, or_else, is_some,
}

abbrev pub Text : Type 0
Text = List ℕ

abbrev pub eq_text : Text → Text → Bool
eq_text [] [] = true
eq_text [] (_ ∷ _) = false
eq_text (_ ∷ _) [] = false
eq_text (c ∷ s) (d ∷ t) = c == d && eq_text s t

abbrev pub is_empty : Text → Bool
is_empty [] = true
is_empty (_ ∷ _) = false

-- `split("/", 1)[0]`; `strip` changes nothing, since `\S+` matched the text.
unfoldable pub before_slash : Text → Text
before_slash [] = []
before_slash (c ∷ s) = let rest = before_slash s in if c == 47 then [] else c ∷ rest

-- What `_parse_show_ip` reads.
pub record Shown : Type 0 where
  pub ip : Text
  pub gateway : Text

-- The answers to the `show ip` of one connection, or nothing where it raises.
pub record Answers : Type 0 where
  pub first : Shown
  pub second : Shown

abbrev pub is_readable : Shown → Bool
is_readable shown = not (is_empty shown.ip)

-- `_read_show_ip`
abbrev pub read_once : Answers → Shown
read_once a = if is_readable a.first then a.first else a.second

abbrev pub read_attempts : ℕ
read_attempts = 3

abbrev pub keep_readable : Option Shown → Option Shown → Option Shown
keep_readable none rest = rest
keep_readable (some shown) rest = if is_readable shown then some shown else rest

abbrev pub read_answers : Option Answers → Option Shown
read_answers none = none
read_answers (some a) = some (read_once a)

-- The loop of `read_show_ip`, at the number of attempts left.
unfoldable pub read_from : (ℕ → Option Answers) → ℕ → ℕ → Option Shown
read_from console attempt zero = none
read_from console attempt (suc left) =
    keep_readable (read_answers (console attempt)) (read_from console (suc attempt) left)

abbrev pub read_show_ip : (ℕ → Option Answers) → Option Shown
read_show_ip console = read_from console 0 read_attempts

pub data Problem : Type 0 where
  -- a parameter is missing, the node or its port is not found, the connection fails
  missing_param no_port no_connection : Problem
  -- `error.validation.console_unreadable`
  unreadable : Problem

-- `CheckResult` without its texts.
pub record Verdict : Type 0 where
  pub ok : Bool
  pub observed : Bool
  pub problem : Option Problem

abbrev pub refused : Problem → Verdict
refused why = record { ok = false; observed = true; problem = some why }

abbrev pub unobserved : Verdict
unobserved = record { ok = false; observed = false; problem = some unreadable }

abbrev pub judged : Bool → Verdict
judged b = record { ok = b; observed = true; problem = none }

-- `not port`: no node, no console, or port 0.
abbrev pub has_port : Option ℕ → Bool
has_port none = false
has_port (some zero) = false
has_port (some (suc _)) = true

-- `not node_name`
abbrev pub has_text : Option Text → Bool
has_text none = false
has_text (some t) = not (is_empty t)

abbrev pub equals : Option Text → Text → Bool
equals none t = false
equals (some e) t = eq_text t e

-- A handler that reads the address of a node, and then judges it.
abbrev pub judge_shown : (Shown → Verdict) → Option Text → Option ℕ → Option Shown → Verdict
judge_shown judge node port shown =
    if not (has_text node)
    then refused missing_param
    else (if not (has_port port)
        then refused no_port
        else elim shown [ none ↦ unobserved | some s ↦ judge s ])

-- `expect["ip"]` and `expect["gateway"]`
unfoldable pub vpcs_show_ip :
    Option Text → Option ℕ → (ℕ → Option Answers) → Option Text → Option Text → Verdict
vpcs_show_ip node port console ip gateway =
    judge_shown (λ s. judged (equals ip s.ip && equals gateway s.gateway)) node port
      (read_show_ip console)

-- `_ip_in_subnet`; the `ipaddress` module is a parameter: none where it raises `ValueError`.
unfoldable pub ip_in_subnet : (Text → Text → Option Bool) → Text → Text → Bool
ip_in_subnet in_network ip subnet =
    if is_empty (before_slash ip)
    then false
    else or_else (in_network (before_slash ip) subnet) false

unfoldable pub vpcs_ip_in_subnet :
    (Text → Text → Option Bool)
    → Option Text
    → Option ℕ
    → (ℕ → Option Answers)
    → Option Text
    → Option Text
    → Verdict
unfolding ip_in_subnet
vpcs_ip_in_subnet in_network node port console subnet gateway =
    judge_shown
      (λ s. judged (ip_in_subnet in_network s.ip (or_else subnet []) && equals gateway s.gateway))
      node port (read_show_ip console)

-- What `_parse_ping` reads of the second ping, and whether VPCS says that the target is unreachable.
pub record Pinged : Type 0 where
  pub received : ℕ
  pub ttl : Option ℕ
  pub says_unreachable : Bool
