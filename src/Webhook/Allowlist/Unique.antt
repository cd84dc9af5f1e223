-- ===== src/Webhook/Allowlist/Unique.antt =====
-- Tests that at most one element of a list passes, where a name tells the elements apart.
use openclaw_control_plane.Common.{
  String, Bool, true, false, List, [], ◌∷◌, string_eq, ◌&&◌, contains, any, find, ◌≡◌, refl, subst,
  ◌≢◌, arith, All, Bool-cases, inl, inr,
}
use openclaw_control_plane.Json.{Json}
use openclaw_control_plane.Webhook.Allowlist.{passes}

-- A test that at most one element passes
abbrev pub AtMostOnce : (Json → Bool) → List Json → Type 0
AtMostOnce p [] = Unit
AtMostOnce p (x ∷ xs) = (p x ≡ true → All (λ y. p y ≡ false) xs) × AtMostOnce p xs

pub any-All :
    (p q : Json → Bool) (xs : List Json)
    → All (λ y. p y ≡ false) xs
    → any (λ x. p x && q x) xs ≡ false
any-All p q [] h = refl
any-All p q (x ∷ xs) (h, hs) = rw h (any-All p q xs hs)

pub find-any :
    (p q : Json → Bool) (xs : List Json)
    → AtMostOnce p xs
    → passes q (find p xs) ≡ any (λ x. p x && q x) xs
find-any p q [] h = refl
find-any p q (x ∷ xs) (h, hs) = elim (Bool-cases (p x)) [
  | inl e ↦ ground (arith, any-All p q xs (h e))
  | inr e ↦ rw e (find-any p q xs hs)
]

pub All-weaken :
    {P Q : Json → Type 0} → ((y : Json) → P y → Q y) → (xs : List Json) → All P xs → All Q xs
All-weaken k [] h = tt
All-weaken k (x ∷ xs) (h, hs) = (k x h, All-weaken k xs hs)

pub and_left : (a b : Bool) → (a && b) ≡ true → a ≡ true
and_left true b h = refl
and_left false b h = h

-- A narrower test passes no more often.
pub AtMostOnce-and :
    (p r : Json → Bool) (xs : List Json) → AtMostOnce p xs → AtMostOnce (λ x. p x && r x) xs
AtMostOnce-and p r [] h = tt
AtMostOnce-and p r (x ∷ xs) (h, hs) =
    (λ e. All-weaken (λ y f. rw f) xs (h (and_left (p x) (r x) e)), AtMostOnce-and p r xs hs)

-- Names that a pass has not seen before
module _ (name : Json → String) where
  abbrev pub Fresh : List String → List Json → Type 0
  Fresh seen [] = Unit
  Fresh seen (x ∷ xs) = (contains seen (name x) ≡ false) × Fresh (name x ∷ seen) xs

  pub Fresh-unseen :
      (seen : List String) (s : String) (xs : List Json)
      → contains seen s ≡ true
      → Fresh seen xs
      → All (λ y. name y ≢ s) xs
  Fresh-unseen seen s [] h f = tt
  Fresh-unseen seen s (x ∷ xs) h (f, fs) = (
    λ e. cc (subst (λ t. contains seen t ≡ false) e f),
    Fresh-unseen (name x ∷ seen) s xs (ground arith) fs,
  )

  pub Fresh-AtMostOnce :
      (p : Json → Bool) (s : String) (seen : List String) (xs : List Json)
      → ((x : Json) → p x ≡ true → name x ≡ s)
      → Fresh seen xs
      → AtMostOnce p xs
  Fresh-AtMostOnce p s seen [] named f = tt
  Fresh-AtMostOnce p s seen (x ∷ xs) named (f, fs) = (
    λ e.
        All-weaken (λ y other. fails (p y) (named y) other) xs
          (Fresh-unseen (name x ∷ seen) s xs (contains-head (named x e)) fs),
    Fresh-AtMostOnce p s (name x ∷ seen) xs named fs,
  )
    where
      contains-head : {t : String} → t ≡ s → contains (t ∷ seen) s ≡ true
      contains-head {t} e = ground arith

      fails : {t : String} (b : Bool) → (b ≡ true → t ≡ s) → t ≢ s → b ≡ false
      fails true n h = absurd (h (n refl))
      fails false n h = refl
