-- ===== src/Chief/Channels/Diff/Moved.antt =====
-- The plan where the port of the chief moves: every channel is stopped and started.
use fmtp.Prelude.{
  ◌≡◌, refl, sym, ap, ◌∙◌, Bool, false, ◌||◌, Option, none, some, List, [], ◌∷◌, ◌==◌, int_eq, ℤ,
  Bool-cases, inl, inr,
}
use fmtp.Channel.Settings.{ChannelSettings}
use fmtp.Chief.Channels.{Plan, find_id, plan_all_stops, plan_all_starts}
use fmtp.Chief.Channels.Equal.{settings_eq}
use fmtp.Chief.Channels.Diff.{
  Unique, has, should_stop, should_start, id_here, and_true, or_false, has-if,
}

module _ (id : ℤ) where
  unfoldable pub works : Option ChannelSettings → Bool
  works none = false
  works (some it) = it.is_working

  pub stops-plan_all_stops :
      (vals : List ChannelSettings) (p : Plan)
      → Unique vals
      → has id (plan_all_stops vals p).stop_ids ≡ works (find_id id vals) || has id p.stop_ids
  unfolding works
  stops-plan_all_stops [] p unique = refl
  stops-plan_all_stops (v ∷ vs) p (alone, unique) =
      has-if id v.is_working v.id (plan_all_stops vs p).stop_ids ∙ elim (Bool-cases (v.id == id)) [
        | inl here ↦ rw here (
            ap (λ b. v.is_working || b)
              (stops-plan_all_stops vs p unique
                ∙ ap (λ o. works o || has id p.stop_ids)
                    (ap (λ i. find_id i vs) (sym (id_here v id here)) ∙ alone)))
        | inr there ↦ rw there (stops-plan_all_stops vs p unique)
      ]

  pub starts-plan_all_starts :
      (vals : List ChannelSettings) (p : Plan)
      → Unique vals
      → has id (plan_all_starts vals p).start_ids ≡ works (find_id id vals) || has id p.start_ids
  unfolding works
  starts-plan_all_starts [] p unique = refl
  starts-plan_all_starts (v ∷ vs) p (alone, unique) =
      has-if id v.is_working v.id (plan_all_starts vs p).start_ids
      ∙ elim (Bool-cases (v.id == id)) [
        | inl here ↦ rw here (
            ap (λ b. v.is_working || b)
              (starts-plan_all_starts vs p unique
                ∙ ap (λ o. works o || has id p.start_ids)
                    (ap (λ i. find_id i vs) (sym (id_here v id here)) ∙ alone)))
        | inr there ↦ rw there (starts-plan_all_starts vs p unique)
      ]

  pub starts-plan_all_stops :
      (vals : List ChannelSettings) (p : Plan)
      → has id (plan_all_stops vals p).start_ids ≡ has id p.start_ids
  starts-plan_all_stops [] p = refl
  starts-plan_all_stops (v ∷ vs) p = starts-plan_all_stops vs p

  pub stops-plan_all_starts :
      (vals : List ChannelSettings) (p : Plan)
      → has id (plan_all_starts vals p).stop_ids ≡ has id p.stop_ids
  stops-plan_all_starts [] p = refl
  stops-plan_all_starts (v ∷ vs) p = stops-plan_all_starts vs p

  pub all_stop : (old new : Option ChannelSettings) → works old || false ≡ should_stop false old new
  unfolding works
  all_stop none new = refl
  all_stop (some o) none = or_false o.is_working
  all_stop (some o) (some n) = and_true o.is_working

  pub all_start :
      (old new : Option ChannelSettings) → works new || false ≡ should_start false old new
  unfolding works
  all_start none none = refl
  all_start (some o) none = refl
  all_start none (some n) = or_false n.is_working
  all_start (some o) (some n) = and_true n.is_working
