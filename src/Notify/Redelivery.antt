-- ===== src/Notify/Redelivery.antt =====
-- An event that the bus delivers again to linkmint-backend/notification-service.
use paylink.Prelude.{
  ◌≡◌, refl, ap, String, Option, none, some, List, [], ◌∷◌, ◌++◌, lookup, string_eq, arith, inl,
  inr, ok, Result, subst, append-nil, append_assoc,
}
use paylink.Notify.Template.{EventData}
use paylink.Notify.Delivery.{DeliveryRow}
use paylink.Notify.Preferences.{Preferences}
use paylink.Notify.Intake.{Channel, TemplateRow, Recipient, NotifyError, State, Method}
use paylink.Notify.Fanout.{
  Wiring, FreshIds, wanted, put_delivery, put_wanted, deliver, collect, enqueue_all, fan_out,
  Outcome,
}
use paylink.Notify.Keys.{Keeps, insert-Keeps, find_by-new, found, with_delivery, put_delivery-cases}

-- What the keys find is kept.
abbrev pub Grows : State → State → Type 0
Grows s t = Keeps (λ row. row.dedupe_key) s.working.deliveries t.working.deliveries

-- What a run reports and leaves, and that a later one reports the same and leaves all alone.
pub record Settled (run again : Method Outcome) (s : State) : Type 0 where
  pub created : List String
  pub enqueued : List String
  pub final : State
  pub ran : run s ≡ (ok (created, enqueued), final)
  pub grows : Grows s final
  pub kept :
      final ≡ record s { working = record s.working { deliveries = final.working.deliveries } }
  pub repeats : (t : State) → Grows final t → again t ≡ (ok (created, []), t)

put_delivery-found :
    (id other : String) (row : DeliveryRow) (s : State)
    → found row.dedupe_key s ≡ some other
    → put_delivery id row s ≡ (ok (other ∷ [], []), s)
unfolding put_delivery
put_delivery-found id other row s e = ground (arith, e)

put_wanted-Settled :
    (id id' : String) (wish : Option DeliveryRow) (s : State)
    → lookup id s.working.deliveries ≡ none
    → Settled (put_wanted id wish) (put_wanted id' wish) s
unfolding put_wanted
put_wanted-Settled id id' none s h = record {
  created = [];
  enqueued = [];
  final = s;
  ran = refl;
  grows = λ key other e. e;
  kept = refl;
  repeats = λ t g. refl;
}
put_wanted-Settled id id' (some row) s h = elim (put_delivery-cases id row s) [
  | inl (other, e, r) ↦ record {
    created = other ∷ [];
    enqueued = [];
    final = s;
    ran = r;
    grows = λ key other e. e;
    kept = refl;
    repeats = λ t g. put_delivery-found id' other row t (g row.dedupe_key other e);
  }
  | inr (inl (e, f, r)) ↦ record {
    created = id ∷ [];
    enqueued = id ∷ [];
    final = with_delivery id row s;
    ran = r;
    grows = insert-Keeps (λ row. row.dedupe_key) id row s.working.deliveries f;
    kept = refl;
    repeats = λ t g.
        put_delivery-found id' id row t (
          g row.dedupe_key id
            (find_by-new (λ row. row.dedupe_key) id row s.working.deliveries f e));
  }
  | inr (inr (e, r)) ↦ absurd (ground (arith, e, h))
]

module _ (w : Wiring) (fresh later : FreshIds) (prefs : Preferences) (event_kind user_id : String)
    (recipient : Recipient) (event_data : EventData) where
  abbrev round : FreshIds → Channel × TemplateRow → State → Result NotifyError Outcome × State
  round ids = deliver w ids prefs event_kind user_id recipient event_data

  -- The identifier of each round is not taken when its turn comes.
  abbrev pub NoClash : List (Channel × TemplateRow) → State → Type 0
  NoClash [] s = Unit
  NoClash (t ∷ ts) s =
      (lookup (fresh.delivery t.0) s.working.deliveries ≡ none) × NoClash ts (round fresh t s).1

  collect-Settled :
      (ts : List (Channel × TemplateRow)) (s : State)
      → NoClash ts s
      → Settled (collect (round fresh) ts) (collect (round later) ts) s
  unfolding collect deliver
  collect-Settled [] s h = record {
    created = [];
    enqueued = [];
    final = s;
    ran = refl;
    grows = λ key other e. e;
    kept = refl;
    repeats = λ t g. refl;
  }
  collect-Settled (t ∷ ts) s h =
      let wish = wanted w prefs event_kind user_id recipient event_data t in
      let first = put_wanted-Settled (fresh.delivery t.0) (later.delivery t.0) wish s h.0 in
      let rest =
        collect-Settled ts first.final
          (subst (λ (u : State). NoClash ts u) (ap (λ r. r.1) first.ran) h.1) in
      record {
        created = first.created ++ rest.created;
        enqueued = first.enqueued ++ rest.enqueued;
        final = rest.final;
        ran = ground (arith, first.ran, rest.ran);
        kept = ground (arith, first.kept, rest.kept);
        grows = λ key other e. rest.grows key other (first.grows key other e);
        repeats = λ u g. ground (
          arith,
          first.repeats u (λ key other e. g key other (rest.grows key other e)),
          rest.repeats u g,
        );
      }

pub enqueue_all-publish :
    (ids : List String) (s : State)
    → enqueue_all ids s ≡ (ok tt, record s { published = s.published ++ ids })
unfolding enqueue_all
enqueue_all-publish [] s = ground (arith, append-nil s.published)
enqueue_all-publish (id ∷ ids) s = ground (
  arith,
  enqueue_all-publish ids (record s { published = s.published ++ id ∷ [] }),
  append_assoc s.published (id ∷ []) ids,
)

abbrev pub committed : State → List String → State
committed s ids = record s { stored = s.working; published = s.published ++ ids }

module _ (w : Wiring) (fresh later : FreshIds) (prefs : Preferences) (event_kind user_id : String)
    (recipient : Recipient) (event_data : EventData) (posted : List String) where
  abbrev pub fanning : FreshIds → List (Channel × TemplateRow) → Method (List String)
  fanning ids ts = fan_out w ids prefs event_kind user_id recipient event_data posted ts

  -- A fan-out that went through, and a later one on what it left.
  pub record Fanned (ts : List (Channel × TemplateRow)) (s : State) (ids : List String)
      : Type 0 where
    pub enqueued : List String
    pub final : State
    pub ran : fanning fresh ts s ≡ (ok ids, committed final enqueued)
    pub grows : Grows s final
    pub kept :
        final ≡ record s { working = record s.working { deliveries = final.working.deliveries } }
    pub repeats :
        (t : State) → Grows final t → t.stored ≡ t.working → fanning later ts t ≡ (ok ids, t)

  pub fan_out-Fanned :
      (ts : List (Channel × TemplateRow)) (s : State) (ids : List String)
      → NoClash w fresh later prefs event_kind user_id recipient event_data ts s
      → (fanning fresh ts s).0 ≡ ok ids
      → Fanned ts s ids
  unfolding fan_out
  fan_out-Fanned [] s ids h e = absurd (ground (arith, e))
  fan_out-Fanned (t ∷ ts) s ids h e =
      let c =
        collect-Settled w fresh later prefs event_kind user_id recipient event_data (t ∷ ts) s h in
      let same : ids ≡ posted ++ c.created = ground (
        arith,
        e,
        c.ran,
        enqueue_all-publish c.enqueued (record c.final { stored = c.final.working }),
      ) in
      record {
        enqueued = c.enqueued;
        final = c.final;
        ran = ground (
          arith,
          same,
          c.ran,
          enqueue_all-publish c.enqueued (record c.final { stored = c.final.working }),
        );
        grows = c.grows;
        kept = c.kept;
        repeats = λ u g k. ground (
          arith,
          same,
          k,
          c.repeats u g,
          enqueue_all-publish [] (record u { stored = u.working }),
          append-nil u.published,
        );
      }
