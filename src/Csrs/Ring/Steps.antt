-- ===== src/Csrs/Ring/Steps.antt =====
-- The loop of `GetNShards` in hash_ring.go, one step at a time.
use native.Mathlib.Nat.{mod-eq_of_lt, mod-add-mod, add-mod_right}
use let_mil_go.Common.{
  ℕ, zero, suc, ◌+◌, ◌-◌, ◌%◌, ◌≤◌, ◌<◌, ◌≡◌, refl, sym, ap, ◌∙◌, ◌⊎◌, inl, inr, String, Bool, true,
  false, some, List, [], ◌∷◌, ◌++◌, length, ltb, arith, length-append, ◌==◌, ==_iff, ==-refl,
  nat_eq, string_eq, Bool-cases,
}
use let_mil_go.GoMap.{Map, is_some, get-put, get-empty}
use let_mil_go.GoMap
use let_mil_go.GoMap.Unique.{elem, elem-append_one}
use let_mil_go.GoMap.Unique.Pigeons.{NoRepeats}
use let_mil_go.Csrs.Ring.{HashRing, or_false}
use let_mil_go.Csrs.Ring.Replicas.{owner_at}

-- the place that is `i` steps on
abbrev place_on : HashRing → ℕ → ℕ → ℕ
place_on h idx i = (idx + i) % length h.ring

place_on-suc :
    (h : HashRing) (idx i : ℕ) → place_on h idx (suc i) ≡ place_on h ((idx + 1) % length h.ring) i
place_on-suc h idx i =
    ap (λ n. n % length h.ring) (omega arith) ∙ sym (mod-add-mod (idx + 1) (length h.ring) i)

-- every place is some steps on from any
pub steps_to :
    (h : HashRing) (idx p : ℕ)
    → idx < length h.ring
    → p < length h.ring
    → (i : ℕ) × (i < length h.ring) × (p ≡ place_on h idx i)
steps_to h idx p hi hp = elim (Bool-cases (ltb p idx)) [
  | inr ahead ↦ (
    p - idx,
    ground (arith, ahead),
    sym (
        ap (λ n. n % length h.ring)
          (let le : idx ≤ p = ground (arith, ahead) in
            let e : idx + (p - idx) ≡ p = omega arith in e)
        ∙ mod-eq_of_lt hp),
  )
  | inl behind ↦ (
    p + length h.ring - idx,
    ground (arith, behind),
    sym (
        ap (λ n. n % length h.ring)
          (let e : idx + (p + length h.ring - idx) ≡ p + length h.ring = omega arith in e)
        ∙ add-mod_right p (length h.ring)
        ∙ mod-eq_of_lt hp),
  )
]

pub NoRepeats-append_one :
    (x : String) (l : List String) → NoRepeats l → elem x l ≡ false → NoRepeats (l ++ x ∷ [])
NoRepeats-append_one x [] n h = (refl, tt)
NoRepeats-append_one x (y ∷ l) (fresh, n) h = (
  ground (arith, elem-append_one y x l, fresh, h, ==_iff x y, ==_iff y x),
  NoRepeats-append_one x l n (ground (arith, h)),
)

abbrev pub Owns : HashRing → String → Type 0
Owns h t = (p : ℕ) × (p < length h.ring) × (owner_at h p ≡ some t)

-- the loop at a place with `left` places ahead that may bring a new shard
pub record IsWalking (h : HashRing) (n idx : ℕ) (result : List String) (seen : Map String Bool)
    (left : ℕ) : Type 0 where
  pub here : idx < length h.ring
  pub same : (t : String) → elem t result ≡ or_false (GoMap.get seen t)
  pub fresh : NoRepeats result
  pub short : length result ≤ n
  pub owned : (t : String) → elem t result ≡ true → Owns h t
  pub ahead :
      (t : String) (p : ℕ)
      → p < length h.ring
      → owner_at h p ≡ some t
      → (elem t result ≡ true) ⊎ ((i : ℕ) × (i < left) × (p ≡ place_on h idx i))

-- one step on, over an owner that is in the result
step_ahead :
    (h : HashRing) (idx left : ℕ) (result result' : List String) (t sid : String) (p : ℕ)
    → owner_at h idx ≡ some sid
    → idx < length h.ring
    → elem sid result' ≡ true
    → (elem t result ≡ true → elem t result' ≡ true)
    → owner_at h p ≡ some t
    → (elem t result ≡ true) ⊎ ((i : ℕ) × (i < suc left) × (p ≡ place_on h idx i))
    → (elem t result' ≡ true)
      ⊎ ((i : ℕ) × (i < left) × (p ≡ place_on h ((idx + 1) % length h.ring) i))
step_ahead h idx left result result' t sid p at hi met grow own (inl old) = inl (grow old)
step_ahead h idx left result result' t sid p at hi met grow own (inr (zero, lt, e)) =
    let p_idx : p ≡ idx = e ∙ ap (λ k. k % length h.ring) (omega arith) ∙ mod-eq_of_lt hi in
    inl (ground (arith, ap (owner_at h) p_idx, own, at, met))
step_ahead h idx left result result' t sid p at hi met grow own (inr (suc i, lt, e)) =
    inr (i, omega arith, e ∙ place_on-suc h idx i)

pub mod-lt : (h : HashRing) (idx k : ℕ) → idx < length h.ring → k % length h.ring < length h.ring
mod-lt h idx k hi = grind arith

pub walk_old :
    (h : HashRing) (n idx left : ℕ) (result : List String) (seen : Map String Bool) (sid : String)
    → owner_at h idx ≡ some sid
    → or_false (GoMap.get seen sid) ≡ true
    → IsWalking h n idx result seen (suc left)
    → IsWalking h n ((idx + 1) % length h.ring) result seen left
walk_old h n idx left result seen sid at old w = record {
  here = mod-lt h idx (idx + 1) w.here;
  same = w.same;
  fresh = w.fresh;
  short = w.short;
  owned = w.owned;
  ahead = λ t p lt own.
      step_ahead h idx left result result t sid p at w.here (w.same sid ∙ old) (λ e. e) own
        (w.ahead t p lt own);
}

pub walk_new :
    (h : HashRing) (n idx left : ℕ) (result : List String) (seen : Map String Bool) (sid : String)
    → owner_at h idx ≡ some sid
    → or_false (GoMap.get seen sid) ≡ false
    → length result < n
    → IsWalking h n idx result seen (suc left)
    → IsWalking h n ((idx + 1) % length h.ring) (result ++ sid ∷ []) (GoMap.put seen sid true) left
walk_new h n idx left result seen sid at new room w = record {
  here = mod-lt h idx (idx + 1) w.here;
  same = λ t. ground (arith, elem-append_one t sid result, w.same t, get-put seen sid t true);
  fresh = NoRepeats-append_one sid result w.fresh (w.same sid ∙ new);
  short = omega (arith, length-append result (sid ∷ []));
  owned = λ t e. elim (Bool-cases (sid == t)) [
    | inl same ↦ (idx, w.here, ground (arith, at, ==_iff sid t))
    | inr other ↦ w.owned t (ground (arith, elem-append_one t sid result, e, other))
  ];
  ahead = λ t p lt own.
      step_ahead h idx left result (result ++ sid ∷ []) t sid p at w.here
        (ground (arith, elem-append_one sid sid result, ==-refl sid))
        (λ e. ground (arith, elem-append_one t sid result, e)) own (w.ahead t p lt own);
}
