-- ===== src/Vpcs/Pinging.antt =====
-- backend/validation/checks/vpcs.py: `vpcs_ping` and `vpcs_ping_node`.
use onlinetlabs.Base.{ℕ, Bool, true, not, ◌&&◌, ◌||◌, Option, none, some, ◌==◌, if◌then◌else◌}
use onlinetlabs.Vpcs.{
  Text, is_empty, before_slash, Answers, Pinged, Verdict, refused, unobserved, judged,
  missing_param, no_port, no_connection, has_port, has_text, judge_shown, read_show_ip,
}
use onlinetlabs.Vpcs.Patterns.{Expected, matches}

-- `"ttl" in expect`
abbrev pub ttl_matches : Option ℕ → Option Expected → Bool
ttl_matches ttl none = true
ttl_matches ttl (some e) = matches ttl e

-- No reply, and no word that the target is unreachable: the console did not answer.
abbrev pub is_silent : Pinged → Bool
is_silent p = p.received == 0 && not p.says_unreachable

abbrev pub judge_ping : Expected → Option Expected → Option Pinged → Verdict
judge_ping received ttl none = refused no_connection
judge_ping received ttl (some p) =
    if is_silent p
    then unobserved
    else judged (matches (some p.received) received && ttl_matches p.ttl ttl)

unfoldable pub vpcs_ping :
    Option Text → Option Text → Option ℕ → Option Pinged → Expected → Option Expected → Verdict
vpcs_ping source target port console received ttl =
    if not (has_text source) || not (has_text target)
    then refused missing_param
    else (if not (has_port port) then refused no_port else judge_ping received ttl console)

-- `consoles` answers the ping of each address.
unfoldable pub vpcs_ping_node :
    Option Text
    → Option ℕ
    → (ℕ → Option Answers)
    → Option Text
    → Option ℕ
    → (Text → Option Pinged)
    → Expected
    → Option Expected
    → Verdict
vpcs_ping_node node node_port node_console source port consoles received ttl =
    judge_shown
      (λ s.
        if is_empty (before_slash s.ip)
        then unobserved
        else vpcs_ping source (some (before_slash s.ip)) port (consoles (before_slash s.ip))
            received ttl)
      node node_port (read_show_ip node_console)
