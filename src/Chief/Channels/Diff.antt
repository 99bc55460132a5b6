-- ===== src/Chief/Channels/Diff.antt =====
-- Which channels new settings stop and start, by their settings before and after.
pub mod Changed
pub mod Moved
pub mod Should
use fmtp.Prelude.{
  ◌≡◌, refl, sym, ap, ◌∙◌, subst, Bool, true, false, not, ◌&&◌, ◌||◌, Option, none, some, List, [],
  ◌∷◌, ◌==◌, if◌then◌else◌, int_eq, ℤ, arith, Bool-cases, Option-cases, inl, inr,
}
use fmtp.Channel.Settings.{ChannelSettings, ChannelSettingsWithPort}
use fmtp.Chief.Channels.{
  Plan, empty_plan, plan_stop, plan_start, find_id, plan_all_stops, plan_all_starts, plan_new,
  plan_news, plan_old, plan_olds, make_plan,
}
use fmtp.Chief.Channels.Equal.{settings_eq, settings_beq_iff, same_list}

-- No two channels have the same id.
abbrev pub Unique : List ChannelSettings → Type 0
Unique [] = Unit
Unique (it ∷ its) = (find_id it.id its ≡ none) × Unique its

abbrev pub has : ℤ → List ℤ → Bool
has id [] = false
has id (x ∷ xs) = x == id || has id xs

-- Whether a channel is stopped and started, by its settings before and after. The flag says that the
-- port of the chief is the same.
abbrev pub should_stop : Bool → Option ChannelSettings → Option ChannelSettings → Bool
should_stop same none new = false
should_stop same (some old) none = old.is_working
should_stop same (some old) (some new) = old.is_working && not (same && old == new)

abbrev pub should_start : Bool → Option ChannelSettings → Option ChannelSettings → Bool
should_start same old none = false
should_start same none (some new) = new.is_working
should_start same (some old) (some new) = new.is_working && not (same && old == new)

pub id_here : (it : ChannelSettings) (id : ℤ) → (it.id == id) ≡ true → it.id ≡ id
id_here it id h = (int_eq.beq_iff it.id id).0 h

-- What is found has the id that is looked for.
pub find_id-id :
    (id : ℤ) (its : List ChannelSettings) (it : ChannelSettings)
    → find_id id its ≡ some it
    → it.id ≡ id
find_id-id id [] it e = ground (arith, e)
find_id-id id (x ∷ xs) it e = elim (Bool-cases (x.id == id)) [
  | inl here ↦
      subst (λ (o : Option ChannelSettings). id_of o ≡ id) (rw here at e) (id_here x id here)
  | inr there ↦ find_id-id id xs it (rw there at e)
]
  where
    id_of : Option ChannelSettings → ℤ
    id_of none = id
    id_of (some y) = y.id

-- Laws of the Boolean operators, by their tables.
pub or_and_true : (a h : Bool) → a || h ≡ (a && true) || h
or_and_true true h = refl
or_and_true false h = refl

pub or_and_false : (a h : Bool) → h ≡ (a && false) || h
or_and_false true h = refl
or_and_false false h = refl

pub unless_false : (a w h : Bool) → (a && w) || h ≡ (a && (w && not false)) || h
unless_false true true h = refl
unless_false true false h = refl
unless_false false w h = refl

pub unless_true : (a w h : Bool) → h ≡ (a && (w && not true)) || h
unless_true true true h = refl
unless_true true false h = refl
unless_true false w h = refl

pub and_true : (b : Bool) → b || false ≡ b && true
and_true true = refl
and_true false = refl

pub or_false : (b : Bool) → b || false ≡ b
or_false true = refl
or_false false = refl

pub has-if :
    (id : ℤ) (working : Bool) (x : ℤ) (ids : List ℤ)
    → has id (if working then x ∷ ids else ids) ≡ (x == id && working) || has id ids
has-if id true x ids = or_and_true (x == id) (has id ids)
has-if id false x ids = or_and_false (x == id) (has id ids)
