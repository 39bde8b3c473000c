-- ===== src/Safety/Exchange.antt =====
-- A target, the steps of a template run against it, and their validation
-- (internal/safety/safety.go). An error is the reason that its message gives.
pub mod Valid
use otscout.Prelude.{
  ℕ, ◌+◌, Bool, true, false, not, ◌&&◌, ◌||◌, Option, none, some, List, [], ◌∷◌, ◌++◌, codes,
  text_eq, is_empty, length, ltb, ◌==◌, if◌then◌else◌, Text, has_byte,
}
use otscout.Prelude.Address.{parse_ip}
use otscout.Prelude.Decimal.{itoa}
use otscout.Prelude.Int.{ℤ, pos, negsuc, ltb_ℤ}
use otscout.Safety.Risk
use otscout.Safety.Risk.{Risk}

pub record Target : Type 0 where
  pub host : Text
  pub port : ℤ
  pub transport : Text

pub record Step : Type 0 where
  pub purpose : Text
  pub request : Text

pub record Exchange : Type 0 where
  pub target : Target
  pub template_id : Text
  pub protocol : Text
  pub risk : Risk
  pub steps : List Step

pub data Problem : Type 0 where
  host_not_ip not_a_port bad_transport : Problem
  no_template no_protocol bad_risk no_steps : Problem
  -- the number of the step, counted from one
  no_request : ℕ → Problem

-- strconv.Itoa
abbrev itoa_ℤ : ℤ → Text
itoa_ℤ (pos n) = itoa n
itoa_ℤ (negsuc n) = b'-' ∷ itoa (n + 1)

-- net.JoinHostPort brackets a host with a colon in it.
unfoldable pub address : Target → Text
address t =
    if has_byte b':' t.host
    then (b'[' ∷ t.host) ++ (b']' ∷ b':' ∷ itoa_ℤ t.port)
    else t.host ++ (b':' ∷ itoa_ℤ t.port)

unfoldable pub validate_target : Target → Option Problem
validate_target t =
    if not (parse_ip t.host)
    then some host_not_ip
    else if ltb_ℤ t.port (pos 1) || ltb_ℤ (pos 65535) t.port
    then some not_a_port
    else if not (text_eq t.transport (codes "tcp")) && not (text_eq t.transport (codes "udp"))
    then some bad_transport
    else none

-- Exchange.Packets
abbrev pub packets : Exchange → ℕ
packets e = length e.steps

-- The loop over the steps, from the step numbered `idx`.
unfoldable pub validate_steps : ℕ → List Step → Option Problem
validate_steps idx [] = none
validate_steps idx (s ∷ steps) =
    let rest = validate_steps (idx + 1) steps in
    if is_empty s.request then some (no_request idx) else rest

unfoldable pub after_target : Exchange → Option Problem
unfolding validate_steps
after_target e =
    if is_empty e.template_id
    then some no_template
    else if is_empty e.protocol
    then some no_protocol
    else if not (Risk.validate e.risk)
    then some bad_risk
    else if is_empty e.steps
    then some no_steps
    else validate_steps 1 e.steps

unfoldable pub validate : Exchange → Option Problem
unfolding after_target
validate e = elim (validate_target e.target) [ some p ↦ some p | none ↦ after_target e ]
