-- ===== src/Chief/Channels/Diff/Should.antt =====
-- What the plan of the chief stops and starts.
use fmtp.Prelude.{
  ◌≡◌, refl, sym, ap, ◌∙◌, Bool, true, false, not, ◌&&◌, ◌||◌, Option, none, some, List, [], ◌∷◌,
  ◌==◌, int_eq, ℤ, arith, Bool-cases, inl, inr,
}
use fmtp.Channel.Settings.{ChannelSettings, ChannelSettingsWithPort}
use fmtp.Chief.Channels.{empty_plan, find_id, plan_all_starts, plan_olds, make_plan}
use fmtp.Chief.Channels.Equal.{settings_eq, settings_beq_iff, same_list}
use fmtp.Chief.Channels.Diff.{Unique, has, should_stop, should_start, or_false}
use fmtp.Chief.Channels.Diff.Changed.{
  changed_stop, starts-plan_news, stops-plan_news, stops-plan_olds, starts-plan_olds, some_stop,
}
use fmtp.Chief.Channels.Diff.Moved.{
  works, stops-plan_all_stops, starts-plan_all_starts, starts-plan_all_stops, stops-plan_all_starts,
  all_stop, all_start,
}

and_not : (b : Bool) → false ≡ b && not (true && true)
and_not true = refl
and_not false = refl

no_stop : (it : Option ChannelSettings) → false ≡ should_stop true it it
no_stop none = refl
no_stop (some it) = rw ((settings_beq_iff it it).1 refl) (and_not it.is_working)

no_start : (it : Option ChannelSettings) → false ≡ should_start true it it
no_start none = refl
no_start (some it) = rw ((settings_beq_iff it it).1 refl) (and_not it.is_working)

same_list-eq : (ss ts : List ChannelSettings) → same_list ss ts ≡ true → ss ≡ ts
same_list-eq [] [] h = refl
same_list-eq [] (t ∷ ts) h = ground (arith, h)
same_list-eq (s ∷ ss) [] h = ground (arith, h)
same_list-eq (s ∷ ss) (t ∷ ts) h = elim (Bool-cases (s == t)) [
  | inl e ↦
      ap (λ x. x ∷ ss) ((settings_beq_iff s t).0 e)
      ∙ ap (λ xs. t ∷ xs) (same_list-eq ss ts (rw e at h))
  | inr n ↦ ground (arith, rw n at h)
]

-- Where no two channels have the same id, before or after: a channel is stopped exactly when it
-- worked and it is gone, is different, or the port of the chief is different; it is started exactly
-- when it is to work and it is new, is different, or the port is.
pub make_plan-should :
    (id : ℤ) (old new : ChannelSettingsWithPort)
    → Unique old.ch_settings
    → Unique new.ch_settings
    → (has id (make_plan old new).stop_ids
        ≡ should_stop
            (old.ch_port == new.ch_port)
            (find_id id old.ch_settings)
            (find_id id new.ch_settings))
      × (has id (make_plan old new).start_ids
          ≡ should_start
              (old.ch_port == new.ch_port)
              (find_id id old.ch_settings)
              (find_id id new.ch_settings))
unfolding make_plan
make_plan-should id old new unique_old unique_new =
    let olds = old.ch_settings in
    let news = new.ch_settings in
    let was = find_id id olds in
    let will = find_id id news in
    elim (Bool-cases (old.ch_port == new.ch_port)) [
      | inr moved ↦ rw moved (
        stops-plan_all_stops id olds (plan_all_starts news empty_plan) unique_old
            ∙ ap (λ b. works id was || b) (stops-plan_all_starts id news empty_plan)
            ∙ all_stop id was will,
        starts-plan_all_stops id olds (plan_all_starts news empty_plan)
            ∙ starts-plan_all_starts id news empty_plan unique_new
            ∙ all_start id was will,
      )
      | inl stays ↦ elim (Bool-cases (same_list olds news)) [
        | inl equal ↦
            let alike : was ≡ will = ap (find_id id) (same_list-eq olds news equal) in
            rw (stays, equal, sym alike) (no_stop was, no_start was)
        | inr differ ↦
            rw (stays, differ)
              (
                stops-plan_news id olds news (plan_olds olds news empty_plan) unique_new
                    ∙ ap (λ b. changed_stop id olds was will || b)
                        (stops-plan_olds id olds news empty_plan unique_old)
                    ∙ some_stop id olds was will,
                starts-plan_news id olds news (plan_olds olds news empty_plan) unique_new
                    ∙ ap (λ b. should_start true was will || b)
                        (starts-plan_olds id olds news empty_plan)
                    ∙ or_false (should_start true was will),
              )
      ]
    ]
