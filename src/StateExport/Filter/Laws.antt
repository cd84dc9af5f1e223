-- ===== src/StateExport/Filter/Laws.antt =====
-- What `filterStateEntry` lets through, said without its order of tests.
use openclaw_control_plane.Common.{
  String, Bool, true, false, List, [], ◌∷◌, ◌≡◌, ◌≢◌, refl, ◌↔◌, inl, inr, ◌==◌, string_eq, ◌||◌,
  any, contains, All, arith, Bool-cases,
}
use openclaw_control_plane.StateExport.Filter.{
  regular, matches_any, include, agent_allowed, exclude_segments, exclude_basename_patterns,
  to_posix_segments, is_excluded, agent_entry, under_root, filter_segments, filter_state_entry,
}

-- A segment that may stand in an exported path
pub record IsClean (s : String) : Type 0 where
  pub no_parent : s ≢ ".."
  pub not_bulk : contains exclude_segments s ≡ false
  pub not_leftover : matches_any exclude_basename_patterns s ≡ false

-- `agents/<id>/agent/<allowed basename>`
abbrev pub IsAgentFile : List String → Type 0
IsAgentFile (root ∷ id ∷ sub ∷ basename ∷ []) =
    (sub ≡ "agent") × (matches_any agent_allowed basename ≡ true)
IsAgentFile _ = ⊥

-- A path that the export may hold
abbrev pub IsExportable : List String → Type 0
IsExportable [] = ⊥
IsExportable (root ∷ rest) =
    All IsClean (root ∷ rest)
    × (contains include root ≡ true)
    × (root ≡ "agents" → IsAgentFile (root ∷ rest))

one-IsClean :
    (s : String)
    → is_excluded s ≡ false
    → matches_any exclude_basename_patterns s ≡ false
    → IsClean s
unfolding is_excluded
one-IsClean s h k = record { no_parent = ground arith; not_bulk = ground arith; not_leftover = k }

IsClean-one :
    (s : String)
    → IsClean s
    → (is_excluded s ≡ false) × (matches_any exclude_basename_patterns s ≡ false)
unfolding is_excluded
IsClean-one s c = (excluded c.no_parent c.not_bulk, c.not_leftover)
  where
    excluded : s ≢ ".." → contains exclude_segments s ≡ false → is_excluded s ≡ false
    excluded h k = ground arith

or_false : (a b : Bool) → (a || b) ≡ false → (a ≡ false) × (b ≡ false)
or_false true b h = cc
or_false false b h = (refl, h)

any-IsClean :
    (ss : List String)
    → any is_excluded ss ≡ false
    → any (matches_any exclude_basename_patterns) ss ≡ false
    → All IsClean ss
any-IsClean [] h k = tt
any-IsClean (s ∷ ss) h k =
    let (h0, hs) = or_false (is_excluded s) _ h in
    let (k0, ks) = or_false (matches_any exclude_basename_patterns s) _ k in
    (one-IsClean s h0 k0, any-IsClean ss hs ks)

IsClean-any :
    (ss : List String)
    → All IsClean ss
    → (any is_excluded ss ≡ false) × (any (matches_any exclude_basename_patterns) ss ≡ false)
IsClean-any [] h = (refl, refl)
IsClean-any (s ∷ ss) (c, cs) =
    let (a, b) = IsClean-one s c in let (as', bs) = IsClean-any ss cs in (rw a as', rw b bs)

agent_file : (segments : List String) → (agent_entry regular segments ≡ true) ↔ IsAgentFile segments
unfolding agent_entry
agent_file [] = ((λ h. cc), λ h. absurd h)
agent_file (a ∷ []) = ((λ h. cc), λ h. absurd h)
agent_file (a ∷ b ∷ []) = ((λ h. cc), λ h. absurd h)
agent_file (a ∷ b ∷ c ∷ []) = ((λ h. cc), λ h. absurd h)
agent_file (a ∷ b ∷ c ∷ d ∷ []) = ((λ h. ground arith), λ h. ground arith)
agent_file (a ∷ b ∷ c ∷ d ∷ e ∷ rest) = ((λ h. cc), λ h. absurd h)

under_root_iff :
    (root : String) (rest : List String)
    → (under_root regular (root ∷ rest) ≡ true)
      ↔ ((contains include root ≡ true) × (root ≡ "agents" → IsAgentFile (root ∷ rest)))
unfolding under_root
under_root_iff root rest = elim (Bool-cases (contains include root)) [
  | inr e ↦ rw e ((λ h. cc), λ (h, k). cc)
  | inl e ↦ elim (Bool-cases (root == "agents")) [
    | inl a ↦
        let named : root ≡ "agents" = ground arith in
        rw (e, a)
          (
            (λ h. (refl, λ _. (agent_file (root ∷ rest)).0 h)),
            λ (h, k). (agent_file (root ∷ rest)).1 (k named),
          )
    | inr a ↦
        let other_root : root ≢ "agents" = ground arith in
        rw (e, a) ((λ h. (refl, λ named. absurd (other_root named))), λ h. refl)
  ]
]

filter_segments-IsExportable :
    (segments : List String) → (filter_segments regular segments ≡ true) ↔ IsExportable segments
unfolding filter_segments
filter_segments-IsExportable [] = ((λ h. cc), λ h. absurd h)
filter_segments-IsExportable (root ∷ rest) =
    let (forth, back) = under_root_iff root rest in
    elim (Bool-cases (any is_excluded (root ∷ rest))) [
      | inl e ↦ rw e ((λ h. cc), λ (c, h, k). cc ((IsClean-any (root ∷ rest) c).0))
      | inr e ↦ elim (Bool-cases (any (matches_any exclude_basename_patterns) (root ∷ rest))) [
        | inl f ↦ rw (e, f) ((λ h. cc), λ (c, h, k). cc ((IsClean-any (root ∷ rest) c).1))
        | inr f ↦
            rw (e, f)
              (
                (λ h. let (i, a) = forth h in (any-IsClean (root ∷ rest) e f, i, a)),
                λ (c, h, k). back (h, k),
              )
      ]
    ]

-- A regular file is let through just where its path is exportable: no segment is the parent, bulk or
-- a leftover, its root is listed, and under `agents` it is an allowed file of an agent.
pub filter_state_entry-IsExportable :
    (path : String)
    → (filter_state_entry path regular ≡ true) ↔ IsExportable (to_posix_segments path)
unfolding filter_state_entry
filter_state_entry-IsExportable path = filter_segments-IsExportable (to_posix_segments path)
