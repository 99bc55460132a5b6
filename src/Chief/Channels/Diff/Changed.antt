-- ===== src/Chief/Channels/Diff/Changed.antt =====
-- The plan where the port of the chief stays: the channels of the new settings, then those that are gone.
use fmtp.Prelude.{
  ◌≡◌, refl, sym, ap, ◌∙◌, Bool, true, false, not, ◌&&◌, ◌||◌, Option, none, some, List, [], ◌∷◌,
  ◌==◌, int_eq, ℤ, Bool-cases, Option-cases, inl, inr,
}
use fmtp.Channel.Settings.{ChannelSettings}
use fmtp.Chief.Channels.{Plan, find_id, plan_new, plan_news, plan_old, plan_olds}
use fmtp.Chief.Channels.Equal.{settings_eq}
use fmtp.Chief.Channels.Diff.{
  Unique, has, should_stop, should_start, id_here, find_id-id, unless_false, unless_true, or_false,
  has-if,
}

module _ (id : ℤ) where
  starts-plan_new :
      (new_it : ChannelSettings) (old : Option ChannelSettings) (p : Plan)
      → has id (plan_new new_it old p).start_ids
        ≡ (new_it.id == id && should_start true old (some new_it)) || has id p.start_ids
  starts-plan_new new_it none p = has-if id new_it.is_working new_it.id p.start_ids
  starts-plan_new new_it (some old_it) p = elim (Bool-cases (old_it == new_it)) [
    | inl equal ↦ rw equal (unless_true (new_it.id == id) new_it.is_working (has id p.start_ids))
    | inr differs ↦ rw differs (
        has-if id new_it.is_working new_it.id p.start_ids
        ∙ unless_false (new_it.id == id) new_it.is_working (has id p.start_ids))
  ]

  stops-plan_new :
      (new_it old_it : ChannelSettings) (p : Plan)
      → has id (plan_new new_it (some old_it) p).stop_ids
        ≡ (old_it.id == id && should_stop true (some old_it) (some new_it)) || has id p.stop_ids
  stops-plan_new new_it old_it p = elim (Bool-cases (old_it == new_it)) [
    | inl equal ↦ rw equal (unless_true (old_it.id == id) old_it.is_working (has id p.stop_ids))
    | inr differs ↦ rw differs (
        has-if id old_it.is_working old_it.id p.stop_ids
        ∙ unless_false (old_it.id == id) old_it.is_working (has id p.stop_ids))
  ]

  module _ (olds : List ChannelSettings) where
    pub starts-plan_news :
        (news : List ChannelSettings) (p : Plan)
        → Unique news
        → has id (plan_news olds news p).start_ids
          ≡ should_start true (find_id id olds) (find_id id news) || has id p.start_ids
    starts-plan_news [] p unique = refl
    starts-plan_news (n ∷ ns) p (alone, unique) =
        starts-plan_new n (find_id n.id olds) (plan_news olds ns p)
        ∙ elim (Bool-cases (n.id == id)) [
          | inl here ↦
              let same = id_here n id here in
              let absent : find_id id ns ≡ none = ap (λ i. find_id i ns) (sym same) ∙ alone in
              rw here (
                ap
                  (λ i.
                    should_start true (find_id i olds) (some n)
                    || has id (plan_news olds ns p).start_ids)
                  same
                ∙ ap (λ b. should_start true (find_id id olds) (some n) || b)
                    (starts-plan_news ns p unique
                      ∙ ap (λ o. should_start true (find_id id olds) o || has id p.start_ids)
                          absent))
          | inr there ↦ rw there (starts-plan_news ns p unique)
        ]

    -- The channels that both settings have.
    unfoldable pub changed_stop : Option ChannelSettings → Option ChannelSettings → Bool
    changed_stop old none = false
    changed_stop old (some new_it) = should_stop true old (some new_it)

    pub stops-plan_news :
        (news : List ChannelSettings) (p : Plan)
        → Unique news
        → has id (plan_news olds news p).stop_ids
          ≡ changed_stop (find_id id olds) (find_id id news) || has id p.stop_ids
    unfolding changed_stop
    stops-plan_news [] p unique = refl
    stops-plan_news (n ∷ ns) p (alone, unique) =
        let earlier : List ℤ = (plan_news olds ns p).stop_ids in
        elim (Bool-cases (n.id == id)) [
          | inl here ↦
              let same = id_here n id here in
              let absent : find_id id ns ≡ none = ap (λ i. find_id i ns) (sym same) ∙ alone in
              let tail : has id earlier ≡ has id p.stop_ids =
                stops-plan_news ns p unique
                ∙ ap (λ o. changed_stop (find_id id olds) o || has id p.stop_ids) absent in
              rw here (
                ap (λ i. has id (plan_new n (find_id i olds) (plan_news olds ns p)).stop_ids) same
                ∙ elim (Option-cases (find_id id olds)) [
                  | inl new ↦ rw new tail
                  | inr (old_it, found) ↦ rw found (
                      stops-plan_new n old_it (plan_news olds ns p)
                      ∙ rw ((int_eq.beq_iff old_it.id id).1 (find_id-id id olds old_it found))
                          (ap (λ b. should_stop true (some old_it) (some n) || b) tail))
                ])
          | inr there ↦ rw there (elim (Option-cases (find_id n.id olds)) [
            | inl new ↦ rw new (stops-plan_news ns p unique)
            | inr (old_it, found) ↦ rw found (
                stops-plan_new n old_it (plan_news olds ns p)
                ∙ rw (ap (λ i. i == id) (find_id-id n.id olds old_it found) ∙ there)
                    (stops-plan_news ns p unique))
          ])
        ]

  unfoldable pub gone_stop : Option ChannelSettings → Option ChannelSettings → Bool
  gone_stop old (some new_it) = false
  gone_stop none none = false
  gone_stop (some old_it) none = old_it.is_working

  pub stops-plan_olds :
      (olds news : List ChannelSettings) (p : Plan)
      → Unique olds
      → has id (plan_olds olds news p).stop_ids
        ≡ gone_stop (find_id id olds) (find_id id news) || has id p.stop_ids
  unfolding gone_stop
  stops-plan_olds [] news p unique = sym (gone_none (find_id id news) (has id p.stop_ids))
    where
      gone_none : (new : Option ChannelSettings) (h : Bool) → gone_stop none new || h ≡ h
      gone_none none h = refl
      gone_none (some n) h = refl
  stops-plan_olds (o ∷ os) news p (alone, unique) =
      let tail = stops-plan_olds os news p unique in
      elim (Bool-cases (o.id == id)) [
        | inl here ↦
            let same = id_here o id here in
            let absent : find_id id os ≡ none = ap (λ i. find_id i os) (sym same) ∙ alone in
            rw here (
              ap (λ i. has id (plan_old o (find_id i news) (plan_olds os news p)).stop_ids) same
              ∙ elim (Option-cases (find_id id news)) [
                | inl gone ↦ rw gone (
                    has-if id o.is_working o.id (plan_olds os news p).stop_ids
                    ∙ rw here (ap (λ b. o.is_working || b) (tail ∙ rw (gone, absent) refl)))
                | inr (n, found) ↦ rw found (tail ∙ rw found refl)
              ])
        | inr there ↦ rw there (elim (Option-cases (find_id o.id news)) [
          | inl gone ↦
              rw gone (has-if id o.is_working o.id (plan_olds os news p).stop_ids ∙ rw there tail)
          | inr (n, found) ↦ rw found tail
        ])
      ]

  pub starts-plan_olds :
      (olds news : List ChannelSettings) (p : Plan)
      → has id (plan_olds olds news p).start_ids ≡ has id p.start_ids
  starts-plan_olds [] news p = refl
  starts-plan_olds (o ∷ os) news p = elim (Option-cases (find_id o.id news)) [
    | inl gone ↦ rw gone (starts-plan_olds os news p)
    | inr (n, found) ↦ rw found (starts-plan_olds os news p)
  ]

  pub some_stop :
      (olds : List ChannelSettings) (old new : Option ChannelSettings)
      → changed_stop olds old new || (gone_stop old new || false) ≡ should_stop true old new
  unfolding changed_stop gone_stop
  some_stop olds none none = refl
  some_stop olds none (some n) = refl
  some_stop olds (some o) none = or_false o.is_working
  some_stop olds (some o) (some n) = or_false (o.is_working && not (true && o == n))
