-- ===== src/Profile/Channels.antt =====
-- The channel fields of the setup payload.
use openclaw_control_plane.Common.{
  ℕ, String, false, some, List, [], ◌∷◌, ◌++◌, ◌≡◌, refl, sym, ap, ◌∙◌, subst, ◌≢◌, ◌⊎◌, inl, inr,
  arith, ◌==◌, string_eq, nat_eq, contains, length, if◌then◌else◌, All, All-append,
}
use mathlib.Core.Sum.{inr-injective}
use openclaw_control_plane.Effects.Errors.{Error}
use openclaw_control_plane.Profile.{
  Channel, ChannelPayloadField, telegram_token, discord_token, slack_bot_token, slack_app_token,
  ChannelFieldMapping, channel_secret_count, channel_fields, map_channel, append_checked,
  map_channels, map_channels_to_payload_fields, channel_names,
}

abbrev pub secrets_of : List ChannelFieldMapping → List String
secrets_of [] = []
secrets_of (m ∷ ms) = m.secret_name ∷ secrets_of ms

-- No field is filled twice.
abbrev pub AreDistinct : List ChannelFieldMapping → Type 0
AreDistinct [] = Unit
AreDistinct (m ∷ ms) = All (λ n. n.target ≢ m.target) ms × AreDistinct ms

-- The channel type that a field belongs to.
abbrev owner : ChannelPayloadField → String
owner telegram_token = "telegram"
owner discord_token = "discord"
owner slack_bot_token = "slack"
owner slack_app_token = "slack"

abbrev Owned : String → List ChannelFieldMapping → Type 0
Owned kind ms = All (λ m. owner m.target ≡ kind) ms

-- The fields of one channel, of a supported type and with the right number of secrets.
record AreFieldsOf (kind : String) (names : List String) (ms : List ChannelFieldMapping)
    : Type 0 where
  secrets : secrets_of ms ≡ names
  owned : Owned kind ms
  distinct : AreDistinct ms

-- The types by their numbers of secrets.
one_secret :
    (kind : String)
    → channel_secret_count kind ≡ some 1
    → owner (if kind == "telegram" then telegram_token else discord_token) ≡ kind
unfolding channel_secret_count
one_secret kind h = ground arith

two_secrets : (kind : String) → channel_secret_count kind ≡ some 2 → "slack" ≡ kind
unfolding channel_secret_count
two_secrets kind h = ground arith

no_other_count : (kind : String) (n : ℕ) → channel_secret_count kind ≡ some n → (n ≡ 1) ⊎ (n ≡ 2)
unfolding channel_secret_count
no_other_count kind n h = ground arith

slack_fields :
    (a b : String) → AreFieldsOf "slack" (a ∷ b ∷ []) (channel_fields "slack" (a ∷ b ∷ []))
unfolding channel_fields string_eq
slack_fields a b = record {
  secrets = refl;
  owned = (refl, (refl, tt));
  distinct = ((λ e. cc, tt), (tt, tt));
}

fields_lem :
    (kind : String) (names : List String)
    → channel_secret_count kind ≡ some (length names)
    → AreFieldsOf kind names (channel_fields kind names)
unfolding channel_fields
fields_lem kind [] h = elim (no_other_count kind _ h) [ inl e ↦ cc | inr e ↦ cc ]
fields_lem kind (a ∷ []) h = record {
  secrets = refl;
  owned = (one_secret kind h, tt);
  distinct = (tt, tt);
}
fields_lem kind (a ∷ b ∷ []) h =
    subst (λ k. AreFieldsOf k (a ∷ b ∷ []) (channel_fields k (a ∷ b ∷ []))) (two_secrets kind h)
      (slack_fields a b)
fields_lem kind (a ∷ b ∷ c ∷ rest) h = elim (no_other_count kind _ h) [ inl e ↦ cc | inr e ↦ cc ]

map_channel_lem :
    (seen : List String) (c : Channel) (ms : List ChannelFieldMapping)
    → map_channel seen c ≡ inr ms
    → (contains seen c.kind ≡ false)
      × (channel_secret_count c.kind ≡ some (length c.required_secret_names))
      × (ms ≡ channel_fields c.kind c.required_secret_names)
unfolding map_channel
map_channel_lem seen c ms h = ground arith

append_checked_lem :
    (a b : Error ⊎ List ChannelFieldMapping) (ms : List ChannelFieldMapping)
    → append_checked a b ≡ inr ms
    → (xs : List ChannelFieldMapping) × (ys : List ChannelFieldMapping) × (a ≡ inr xs)
      × (b ≡ inr ys)
      × (ms ≡ xs ++ ys)
append_checked_lem (inl e) b ms h = cc
append_checked_lem (inr xs) (inl e) ms h = cc
append_checked_lem (inr xs) (inr ys) ms h = (xs, ys, refl, refl, cc)

All-map :
    {A : Type 0} (P Q : A → Type 0) (xs : List A) → ((x : A) → P x → Q x) → All P xs → All Q xs
All-map P Q [] f h = tt
All-map P Q (x ∷ xs) f (h, k) = (f x h, All-map P Q xs f k)

secrets_append :
    (xs ys : List ChannelFieldMapping) → secrets_of (xs ++ ys) ≡ secrets_of xs ++ secrets_of ys
secrets_append [] ys = refl
secrets_append (x ∷ xs) ys = ap (λ s. x.secret_name ∷ s) (secrets_append xs ys)

-- A channel's fields are not those of later channels, whose types are others.
distinct_append :
    (kind : String) (xs ys : List ChannelFieldMapping)
    → Owned kind xs
    → AreDistinct xs
    → All (λ n. owner n.target ≢ kind) ys
    → AreDistinct ys
    → AreDistinct (xs ++ ys)
distinct_append kind [] ys o d h e = e
distinct_append kind (x ∷ xs) ys (o, os) (d, ds) h e = (
  All-append (λ n. n.target ≢ x.target) xs ys d
      (All-map (λ n. owner n.target ≢ kind) (λ n. n.target ≢ x.target) ys
        (λ n differs same. differs (ap owner same ∙ o)) h),
  distinct_append kind xs ys os ds h e,
)

abbrev IsFresh : List String → ChannelFieldMapping → Type 0
IsFresh seen m = contains seen (owner m.target) ≡ false

record AreMapped (seen : List String) (cs : List Channel) (ms : List ChannelFieldMapping)
    : Type 0 where
  secrets : secrets_of ms ≡ channel_names cs
  fresh : All (IsFresh seen) ms
  distinct : AreDistinct ms

IsFresh-parts :
    (kind : String) (seen : List String) (m : ChannelFieldMapping)
    → IsFresh (kind ∷ seen) m
    → (owner m.target ≢ kind) × IsFresh seen m
IsFresh-parts kind seen m h = (λ e. ground arith, ground arith)

mapped_step :
    (seen : List String) (c : Channel) (cs : List Channel) (xs ys : List ChannelFieldMapping)
    → contains seen c.kind ≡ false
    → AreFieldsOf c.kind c.required_secret_names xs
    → AreMapped (c.kind ∷ seen) cs ys
    → AreMapped seen (c ∷ cs) (xs ++ ys)
mapped_step seen c cs xs ys unseen f m = record {
  secrets =
      secrets_append xs ys
      ∙ ap (λ s. s ++ secrets_of ys) f.secrets
      ∙ ap (λ s. c.required_secret_names ++ s) m.secrets;
  fresh =
      All-append (IsFresh seen) xs ys
        (All-map (λ n. owner n.target ≡ c.kind) (IsFresh seen) xs
          (λ n e. ap (contains seen) e ∙ unseen) f.owned)
        (All-map (IsFresh (c.kind ∷ seen)) (IsFresh seen) ys
          (λ n h. (IsFresh-parts c.kind seen n h).1) m.fresh);
  distinct =
      distinct_append c.kind xs ys f.owned f.distinct
        (All-map (IsFresh (c.kind ∷ seen)) (λ n. owner n.target ≢ c.kind) ys
          (λ n h. (IsFresh-parts c.kind seen n h).0) m.fresh)
        m.distinct;
}

map_channels-AreMapped :
    (seen : List String) (cs : List Channel) (ms : List ChannelFieldMapping)
    → map_channels seen cs ≡ inr ms
    → AreMapped seen cs ms
unfolding map_channels
map_channels-AreMapped seen [] ms h =
    subst (AreMapped seen []) (inr-injective [] ms h)
      (record { secrets = refl; fresh = tt; distinct = tt })
map_channels-AreMapped seen (c ∷ cs) ms h =
    let (xs, ys, first, rest, all) = append_checked_lem _ _ ms h in
    let (unseen, count, fields) = map_channel_lem seen c xs first in
    subst (AreMapped seen (c ∷ cs)) (sym all) (
      mapped_step seen c cs xs ys unseen
        (subst (AreFieldsOf c.kind c.required_secret_names) (sym fields)
          (fields_lem c.kind c.required_secret_names count))
        (map_channels-AreMapped (c.kind ∷ seen) cs ys rest))

-- Channels that are accepted use all their secrets, in order, and fill no field of the payload
-- twice.
pub map_channels_to_payload_fields-AreDistinct :
    (channels : List Channel) (ms : List ChannelFieldMapping)
    → map_channels_to_payload_fields channels ≡ inr ms
    → (secrets_of ms ≡ channel_names channels) × AreDistinct ms
unfolding map_channels_to_payload_fields
map_channels_to_payload_fields-AreDistinct channels ms h =
    let mapped = map_channels-AreMapped [] channels ms h in (mapped.secrets, mapped.distinct)
