-- ===== src/Safety/Exchange/Valid.antt =====
-- What an exchange that validates satisfies.
use otscout.Prelude.{
  ℕ, ◌+◌, ◌≡◌, ◌↔◌, refl, true, false, ◌||◌, none, List, [], ◌∷◌, arith, codes, text_eq, is_empty,
  All,
}
use otscout.Prelude.Address.{parse_ip}
use otscout.Prelude.Int.{pos, ◌≤ℤ◌}
use otscout.Safety.Risk
use otscout.Safety.Exchange.{
  Target, Step, Exchange, validate_target, validate_steps, after_target, validate,
}

pub record IsValid (e : Exchange) : Type 0 where
  pub host : parse_ip e.target.host ≡ true
  pub port : (pos 1 ≤ℤ e.target.port) × (e.target.port ≤ℤ pos 65535)
  pub transport :
      (text_eq e.target.transport (codes "tcp") || text_eq e.target.transport (codes "udp")) ≡ true
  pub template : is_empty e.template_id ≡ false
  pub protocol : is_empty e.protocol ≡ false
  pub risk : Risk.validate e.risk ≡ true
  pub steps : is_empty e.steps ≡ false
  pub requests : All (λ (s : Step). is_empty s.request ≡ false) e.steps

validate_steps-none :
    (idx : ℕ) (steps : List Step)
    → (validate_steps idx steps ≡ none) ↔ All (λ (s : Step). is_empty s.request ≡ false) steps
unfolding validate_steps
validate_steps-none idx [] = (λ _. tt, λ _. refl)
validate_steps-none idx (s ∷ steps) =
    let ih = validate_steps-none (idx + 1) steps in
    (λ h. ground (arith, ih.0), λ h. ground (arith, ih.1 h.1))

target-none :
    (t : Target)
    → (validate_target t ≡ none) ↔ (
        (parse_ip t.host ≡ true)
        × (pos 1 ≤ℤ t.port)
        × (t.port ≤ℤ pos 65535)
        × ((text_eq t.transport (codes "tcp") || text_eq t.transport (codes "udp")) ≡ true))
unfolding validate_target
target-none t = (λ h. ground arith, λ h. ground arith)

-- An exchange validates exactly when its host is an address, its port and transport exist, it names
-- its template and protocol, its rating is a rating, and it has steps, each with a request.
pub validate-IsValid_iff : (e : Exchange) → (validate e ≡ none) ↔ IsValid e
unfolding validate after_target
validate-IsValid_iff e =
    let target = target-none e.target in
    let steps = validate_steps-none 1 e.steps in
    (
      λ h. ground (arith, target.0, steps.0),
      λ v.
          ground (arith, target.1 (v.host, v.port.0, v.port.1, v.transport), steps.1 v.requests, v),
    )
