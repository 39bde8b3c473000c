-- ===== src/Safety/Grouping/Order.antt =====
-- Grouping loses no exchange, repeats no host, and keeps the order within a host.
use otscout.Prelude.{
  ℕ, ◌+◌, ◌≡◌, refl, sym, ap, ◌∙◌, Bool, true, false, ◌||◌, List, [], ◌∷◌, ◌++◌, arith, All,
  All-map, length, text_eq, text_eq_iff, text_eq_refl, if◌then◌else◌, Text, Bool-cases, inl, inr,
}
use mathlib.Core.List.{append_assoc, append-nil}
use otscout.Safety.Exchange.{Exchange}
use otscout.Safety.Grouping.{Groups, of_host, is_seen, add_to, group_onto, group_by_host}

-- The exchanges of one host, in the order of the plan.
pub select : Text → List Exchange → List Exchange
select h [] = []
select h (ex ∷ exs) =
    let rest = select h exs in if text_eq ex.target.host h then ex ∷ rest else rest

-- Whether a host stands in the plan.
pub appears : Text → List Exchange → Bool
appears h [] = false
appears h (ex ∷ exs) = text_eq ex.target.host h || appears h exs

-- How often a host is listed.
pub hits : Text → List Text → ℕ
hits h [] = 0
hits h (k ∷ ks) = (if text_eq k h then 1 else 0) + hits h ks

of_host-add_to :
    (k h : Text) (ex : Exchange) (m : Groups)
    → of_host h (add_to k ex m) ≡ (if text_eq k h then of_host h m ++ ex ∷ [] else of_host h m)
unfolding of_host add_to
of_host-add_to k h ex [] = ground arith
of_host-add_to k h ex ((j, exs) ∷ m) =
    ground (arith, text_eq_iff j k, text_eq_iff j h, text_eq_iff k h, of_host-add_to k h ex m)

is_seen-add_to :
    (k h : Text) (ex : Exchange) (m : Groups)
    → is_seen h (add_to k ex m) ≡ (text_eq k h || is_seen h m)
unfolding is_seen add_to
is_seen-add_to k h ex [] = ground arith
is_seen-add_to k h ex ((j, exs) ∷ m) =
    ground (arith, text_eq_iff j k, text_eq_iff j h, text_eq_iff k h, is_seen-add_to k h ex m)

hits-append : (h : Text) (xs ys : List Text) → hits h (xs ++ ys) ≡ hits h xs + hits h ys
unfolding hits
hits-append h [] ys = omega arith
hits-append h (k ∷ xs) ys = omega (arith, hits-append h xs ys)

of_host-group_onto :
    (h : Text) (order : List Text) (m : Groups) (exs : List Exchange)
    → of_host h (group_onto order m exs).1 ≡ of_host h m ++ select h exs
unfolding group_onto select
of_host-group_onto h order m [] = sym (append-nil _)
of_host-group_onto h order m (ex ∷ exs) =
    let host = ex.target.host in
    let order' = if is_seen host m then order else order ++ host ∷ [] in
    elim (Bool-cases (text_eq host h)) [
      | inl same ↦
          of_host-group_onto h order' (add_to host ex m) exs
          ∙ rw (of_host-add_to, same) (rw append_assoc)
      | inr other ↦ of_host-group_onto h order' (add_to host ex m) exs ∙ rw (of_host-add_to, other)
    ]

hits-group_onto :
    (h : Text) (order : List Text) (m : Groups) (exs : List Exchange)
    → hits h order ≡ (if is_seen h m then 1 else 0)
    → hits h (group_onto order m exs).0 ≡ (if is_seen h m || appears h exs then 1 else 0)
unfolding group_onto appears hits
hits-group_onto h order m [] e = ground arith
hits-group_onto h order m (ex ∷ exs) e =
    let host = ex.target.host in
    let order' = if is_seen host m then order else order ++ host ∷ [] in
    let ih = hits-group_onto h order' (add_to host ex m) exs in
    let listed : hits h order' ≡ (if is_seen h (add_to host ex m) then 1 else 0) =
      ground
        (arith, is_seen-add_to host h ex m, hits-append h order (host ∷ []), text_eq_iff host h) in
    ground (arith, ih listed, is_seen-add_to host h ex m)

-- For every host: its exchanges are those of the plan in the plan's order, and it is listed once
-- if it stands in the plan, and else never.
pub group_by_host_lem :
    (h : Text) (exs : List Exchange)
    → (of_host h (group_by_host exs).1 ≡ select h exs)
      × (hits h (group_by_host exs).0 ≡ (if appears h exs then 1 else 0))
unfolding group_by_host of_host is_seen hits
group_by_host_lem h exs = (of_host-group_onto h [] [] exs, hits-group_onto h [] [] exs refl)

pub select-All :
    (Q : Exchange → Type 0) (h : Text) (exs : List Exchange) → All Q exs → All Q (select h exs)
unfolding select
select-All Q h [] q = tt
select-All Q h (ex ∷ exs) q = ground (arith, select-All Q h exs q.1)

-- How many exchanges the listed hosts have.
pub total : List Exchange → List Text → ℕ
total exs [] = 0
total exs (h ∷ hs) = length (select h exs) + total exs hs

total-cons :
    (ex : Exchange) (exs : List Exchange) (hs : List Text)
    → total (ex ∷ exs) hs ≡ hits ex.target.host hs + total exs hs
unfolding total select hits
total-cons ex exs [] = omega arith
total-cons ex exs (h ∷ hs) =
    ground (arith, total-cons ex exs hs, text_eq_iff ex.target.host h, text_eq_iff h ex.target.host)

total-length :
    (exs : List Exchange) (hs : List Text)
    → All (λ (ex : Exchange). hits ex.target.host hs ≡ 1) exs
    → total exs hs ≡ length exs
unfolding total select
total-length [] [] h = refl
total-length [] (k ∷ hs) h = omega (arith, total-length [] hs tt)
total-length (ex ∷ exs) hs h = omega (arith, total-cons ex exs hs, total-length exs hs h.1, h.0)

appears-weaken :
    (ex : Exchange) (exs ys : List Exchange)
    → All (λ (y : Exchange). appears y.target.host exs ≡ true) ys
    → All (λ (y : Exchange). appears y.target.host (ex ∷ exs) ≡ true) ys
unfolding appears
appears-weaken ex exs [] h = tt
appears-weaken ex exs (y ∷ ys) h = (ground arith, appears-weaken ex exs ys h.1)

appears-All : (exs : List Exchange) → All (λ (ex : Exchange). appears ex.target.host exs ≡ true) exs
unfolding appears
appears-All [] = tt
appears-All (ex ∷ exs) =
    (ground (arith, text_eq_refl ex.target.host), appears-weaken ex exs exs (appears-All exs))

-- Every exchange of the plan is met once: the groups of the listed hosts hold as many exchanges.
pub total-group_by_host : (exs : List Exchange) → total exs (group_by_host exs).0 ≡ length exs
total-group_by_host exs = total-length exs (group_by_host exs).0 (
    All-map _ _ (λ ex a. (group_by_host_lem ex.target.host exs).1 ∙ ap (λ b. if b then 1 else 0) a)
      exs (appears-All exs))

pub total-nil : (exs : List Exchange) → total exs [] ≡ 0
unfolding total
total-nil exs = refl

pub total-host :
    (exs : List Exchange) (h : Text) (hs : List Text)
    → total exs (h ∷ hs) ≡ length (of_host h (group_by_host exs).1) + total exs hs
unfolding total
total-host exs h hs = rw (group_by_host_lem h exs).0
