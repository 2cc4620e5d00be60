-- ===== src/Vpcs/Verdicts.antt =====
-- backend/validation/checks/vpcs.py: when a handler judges, and what.
use onlinetlabs.Base.{
  ℕ, ◌≡◌, refl, ap, ◌∙◌, Bool, false, not, ◌&&◌, ◌||◌, [], Option, none, some, arith, is_some,
  or_else,
}
use onlinetlabs.Vpcs.{
  Text, Shown, Answers, is_readable, read_answers, keep_readable, read_from, read_show_ip, has_port,
  has_text, equals, vpcs_show_ip, judge_shown, judged, ip_in_subnet, vpcs_ip_in_subnet, Pinged,
}
use onlinetlabs.Vpcs.Patterns.{Expected, matches}
use onlinetlabs.Vpcs.Pinging.{ttl_matches, is_silent, vpcs_ping}

-- Whether one connection returns an address, at the first or the second asking.
abbrev pub is_answered : Option Answers → Bool
is_answered none = false
is_answered (some a) = is_readable a.first || is_readable a.second

-- Whether one of the three connections returns an address.
abbrev pub is_seen : (ℕ → Option Answers) → Bool
is_seen console = is_answered (console 0) || is_answered (console 1) || is_answered (console 2)

keep_readable-is_some :
    (o : Option Answers) (rest : Option Shown)
    → is_some (keep_readable (read_answers o) rest) ≡ (is_answered o || is_some rest)
keep_readable-is_some none rest = refl
keep_readable-is_some (some a) rest = ground arith

read_show_ip-is_some :
    (console : ℕ → Option Answers) → is_some (read_show_ip console) ≡ is_seen console
unfolding read_from
read_show_ip-is_some console = ground (
  arith,
  keep_readable-is_some (console 0) (read_from console 1 2),
  keep_readable-is_some (console 1) (read_from console 2 1),
  keep_readable-is_some (console 2) none,
)

-- Whether something is read, is an address, and passes a test.
abbrev pub reads_as : (Shown → Bool) → Option Shown → Bool
reads_as test none = false
reads_as test (some s) = is_readable s && test s

abbrev any_shown : (Shown → Bool) → Option Shown → Bool
any_shown test none = false
any_shown test (some s) = test s

-- What is read is an address.
keep_readable-readable :
    (test : Shown → Bool) (o : Option Answers) (rest : Option Shown)
    → any_shown test rest ≡ reads_as test rest
    → any_shown test (keep_readable (read_answers o) rest)
      ≡ reads_as test (keep_readable (read_answers o) rest)
keep_readable-readable test none rest h = h
keep_readable-readable test (some a) rest h = ground arith

read_show_ip-readable :
    (test : Shown → Bool) (console : ℕ → Option Answers)
    → any_shown test (read_show_ip console) ≡ reads_as test (read_show_ip console)
unfolding read_from
read_show_ip-readable test console =
    keep_readable-readable test (console 0) (read_from console 1 2) (
      keep_readable-readable test (console 1) (read_from console 2 1)
        (keep_readable-readable test (console 2) none refl))

-- Whether a check names a node that has a console.
abbrev pub is_asked : Option Text → Option ℕ → Bool
is_asked node port = has_text node && has_port port

judge_shown_lem :
    (test : Shown → Bool) (node : Option Text) (port : Option ℕ) (shown : Option Shown)
    → let v = judge_shown (λ s. judged (test s)) node port shown in
      (v.observed ≡ (not (is_asked node port) || is_some shown))
      × (v.ok ≡ (is_asked node port && any_shown test shown))
judge_shown_lem test named port none = (ground arith, ground arith)
judge_shown_lem test named port (some s) = (ground arith, ground arith)

-- An address check is unobserved exactly where it names a node with a console and none of three
-- connections returned an address at the first or the second asking; and it passes exactly where
-- it names such a node, an address was read, and the address and the gateway are as expected: the
-- expected ones for `vpcs.show_ip`, in the expected network for `vpcs.ip_in_subnet`.
pub address_checks_lem :
    (in_network : Text → Text → Option Bool) (node : Option Text) (port : Option ℕ)
    (console : ℕ → Option Answers) (ip subnet gateway : Option Text)
    → let shown = vpcs_show_ip node port console ip gateway in
      let inside = vpcs_ip_in_subnet in_network node port console subnet gateway in
      let asked = is_asked node port in
      (shown.observed ≡ (not asked || is_seen console))
      × (inside.observed ≡ (not asked || is_seen console))
      × (shown.ok ≡ (
          asked
          && reads_as (λ s. equals ip s.ip && equals gateway s.gateway) (read_show_ip console)))
      × (inside.ok ≡ (
          asked
          && reads_as
              (λ s. ip_in_subnet in_network s.ip (or_else subnet []) && equals gateway s.gateway)
              (read_show_ip console)))
unfolding vpcs_show_ip vpcs_ip_in_subnet
address_checks_lem in_network node port console ip subnet gateway =
    let same : Shown → Bool = λ s. equals ip s.ip && equals gateway s.gateway in
    let within : Shown → Bool =
      λ s. ip_in_subnet in_network s.ip (or_else subnet []) && equals gateway s.gateway in
    let (a, b) = judge_shown_lem same node port (read_show_ip console) in
    let (c, d) = judge_shown_lem within node port (read_show_ip console) in
    let seen = ap (λ x. not (is_asked node port) || x) (read_show_ip-is_some console) in
    let kept : (t : Shown → Bool)
        → (is_asked node port && any_shown t (read_show_ip console))
          ≡ (is_asked node port && reads_as t (read_show_ip console)) =
      λ t. ap (λ x. is_asked node port && x) (read_show_ip-readable t console) in
    (a ∙ seen, c ∙ seen, b ∙ kept same, d ∙ kept within)

-- Whether a console answered a ping with neither a reply nor a word that the target is
-- unreachable.
abbrev pub is_mute : Option Pinged → Bool
is_mute none = false
is_mute (some p) = is_silent p

abbrev pub pings_as : Expected → Option Expected → Option Pinged → Bool
pings_as received ttl none = false
pings_as received ttl (some p) =
    not (is_silent p) && matches (some p.received) received && ttl_matches p.ttl ttl

-- A ping check is unobserved exactly where it names a target, and a node with a console, and the
-- console was mute; and it passes exactly where it names them, the console was not mute, and the
-- replies, and the time to live if it is expected, match.
vpcs_ping_lem :
    (source target : Option Text) (port : Option ℕ) (console : Option Pinged) (received : Expected)
    (ttl : Option Expected)
    → let v = vpcs_ping source target port console received ttl in
      let asked = has_text target && is_asked source port in
      (v.observed ≡ not (asked && is_mute console))
      × (v.ok ≡ (asked && pings_as received ttl console))
unfolding vpcs_ping
vpcs_ping_lem source target port none received ttl = (ground arith, ground arith)
vpcs_ping_lem source target port (some p) received ttl = (ground arith, ground arith)
