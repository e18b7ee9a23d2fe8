-- ===== src/Startup/Drained/Steps.antt =====
-- What a tick adds to the mails that are sent before one that waits.
use mathlib.Core.List.{Memᴰ}
use oxid_relay.Prelude.{
  ℕ, ◌+◌, ◌≤◌, ◌≡◌, refl, sym, ap, subst, ◌∙◌, ◌⊎◌, inl, inr, true, some, List, [], ◌∷◌, ◌++◌,
  count, map, length-append, length-map, count-append, All, All-append, All-weaken, arith, ◌==◌,
  All-at, ==_iff,
}
use oxid_relay.Prelude.Text.{Text}
use oxid_relay.Prelude.Result.{Result, ok}
use oxid_relay.Message.{CoreError, Mail, MailId}
use oxid_relay.Config.{Config, SmtpConfig}
use oxid_relay.Queue.Counts.{pick}
use oxid_relay.Queue.Laws.{Delivery, QueueLaws}
use oxid_relay.Queue.Model.{is_mail, is_due}
use oxid_relay.Queue.Refine.Holds.{columns}
use oxid_relay.Queue.Row.{Codec, Row}
use oxid_relay.Queue.Row.RoundTrip.{IsCodec, InRange}
use oxid_relay.Queue.Sqlite.{find_row}
use oxid_relay.Queue.Instance.{State, sqlite_queue}
use oxid_relay.Queue.Instance.Rows.{sqlite_laws, view-sqlite_laws, valid-sqlite_laws}
use oxid_relay.Queue.Instance.Rows.Held.{held_mail}
use oxid_relay.Queue.Instance.Rows.View.{row_view, status_of, written_status}
use oxid_relay.Dispatcher.{Inner, Transport, Host}
use oxid_relay.Dispatcher.Tick.{Tick, Shared, IsDone}
use oxid_relay.Dispatcher.Tick.Begin.{begin, fetch, reclaimed, batch_or_empty}
use oxid_relay.Dispatcher.Tick.Final.{batch_facts, reclaimed-Recovered, kept}
use oxid_relay.Dispatcher.Tick.Sharing.{Shared-keeps}
use oxid_relay.Startup.{dispatcher}
use oxid_relay.Startup.Delivered.{found_row}
use oxid_relay.Startup.Advances.{Serves, Settled, tick-Advances}
use oxid_relay.Startup.Drained.Passing.{Through, Waits, Passed, Settled-Through}

map-All :
    {A B : Type 0} (f : A → B) (P : B → Type 0) (xs : List A)
    → All (λ x. P (f x)) xs
    → All P (map f xs)
map-All f P [] a = tt
map-All f P (x ∷ xs) a = (a.0, map-All f P xs a.1)

count-ids :
    (i : MailId) (ms : List Mail)
    → count (λ n. n == i) (map (λ (m : Mail). m.id) ms) ≡ count (is_mail i) ms
count-ids i [] = refl
count-ids i (m ∷ ms) = ground (arith, count-ids i ms)

module _ {W : Type 0} (host : Host W) (new_smtp : SmtpConfig → Result (Transport W) CoreError)
    (config : Config) (plugins : List (Text × Transport W)) (c : Codec) (k : IsCodec c) where
  abbrev relay : Inner (State Row) W
  relay = dispatcher new_smtp config (sqlite_queue c) plugins

  module _ (s : State Row) (w : W) (ms : List Mail) {t : Tick (State Row) W}
      (serves : Serves host new_smtp config plugins c k s w ms)
      (run : Shared host relay (begin host relay (s, w)) t) where
    laws : QueueLaws Text relay.queue
    unfolding dispatcher
    laws = sqlite_laws c k

    laws_view : (u : State Row) (i : MailId) → laws.view u i ≡ row_view c u.table i
    unfolding laws dispatcher
    laws_view u i = view-sqlite_laws c k u i

    laws_valid : laws.valid s
    unfolding laws dispatcher
    laws_valid = valid-sqlite_laws c k s serves.keyed

    pub Through-tick : (i : MailId) → Through c s i → Through c t.queue i
    Through-tick i (d, known, shown, fine) = (
      d,
      sym (laws_view t.queue i)
          ∙ Shared-keeps host relay laws i d s w laws_valid (laws_view s i ∙ known) (inl shown) run,
      shown,
      fine,
    )

    -- A mail that is through is not in the batch.
    Through-apart :
        (i : MailId) (batch : List Mail)
        → (fetch host relay (s, w)).0 ≡ ok batch
        → Through c s i
        → count (is_mail i) batch ≡ 0
    Through-apart i batch fetched (d, known, shown, fine) =
        let recovered : laws.view (reclaimed host relay (s, w)) i ≡ some d =
          kept host relay laws i d (laws_view s i ∙ known) (inl shown)
            (reclaimed-Recovered host relay laws i s w) in
        elim (batch_facts host relay laws i s w laws_valid).1 [
          | inl apart ↦
              sym (
                ap (λ (x : Result (List Mail) CoreError). count (is_mail i) (batch_or_empty x))
                  fetched)
              ∙ apart
          | inr (d', known', waiting) ↦ absurd (ground (arith, recovered))
        ]

    -- The mail of the table that waits under the id of `m`.
    waiting_mail :
        (m : Mail)
        → InRange m
        → Waits c m s
        → m.next_attempt_at ≤ (host.now w).0
        → (x : Mail) × Memᴰ x ms × (x.id ≡ m.id) × (is_due (host.now w).0 x ≡ true)
    waiting_mail m within (d, known, waiting, time) come =
        let (r, found, shown) = found_row (find_row c m.id s.table) d known in
        let (x, here, id, stored) = held_mail c k m.id r s.table ms serves.held found in
        let cols = columns c x r stored in
        let status : x.status ≡ d.status =
          sym (ap status_of cols.status ∙ written_status x.status)
          ∙ ap (λ (z : Delivery Text). z.status) shown in
        let same : c.to_rfc3339 x.next_attempt_at ≡ c.to_rfc3339 m.next_attempt_at =
          sym cols.next_attempt_at ∙ ap (λ (z : Delivery Text). z.next_attempt_at) shown ∙ time in
        let at : x.next_attempt_at ≡ m.next_attempt_at = ground (
          arith,
          k.time_back x.next_attempt_at (All-at InRange ms serves.in_range here).next_attempt_at,
          k.time_back m.next_attempt_at within.next_attempt_at,
          ap c.parse_from_rfc3339 same,
        ) in
        (x, here, id, ground (arith, status, at, waiting))

    -- The ids of the batch and those that are through differ.
    still_once :
        (batch : List Mail) (ids : List MailId)
        → (fetch host relay (s, w)).0 ≡ ok batch
        → ((i : MailId) → count (is_mail i) batch ≤ 1)
        → ((i : MailId) → count (λ n. n == i) ids ≤ 1)
        → All (Through c s) ids
        → (i : MailId) → count (λ n. n == i) (map (λ (x : Mail). x.id) batch ++ ids) ≤ 1
    still_once batch ids fetched different once through i =
        let sum : count (λ n. n == i) (map (λ (x : Mail). x.id) batch ++ ids)
            ≡ count (is_mail i) batch + count (λ n. n == i) ids =
          omega (
            arith,
            count-append {0} (λ n. n == i) (map (λ (x : Mail). x.id) batch) ids,
            count-ids i batch,
          ) in
        elim (pick (λ n. n == i) (Through c s) ids through) [
          | inl none_left ↦ omega (arith, sum, different i, none_left)
          | inr (j, there, hit) ↦
              let apart =
                Through-apart i batch fetched (subst (Through c s) ((==_iff j i).0 hit) there) in
              omega (arith, sum, apart, once i)
        ]

    pub Passed-tick :
        (m : Mail) (many : ℕ)
        → InRange m
        → m.next_attempt_at ≤ (host.now w).0
        → IsDone t
        → Passed c m many s
        → Through c t.queue m.id ⊎ Passed c m (config.dispatcher.batch_size + many) t.queue
    Passed-tick m many within come done p =
        let (x, here, id, due) = waiting_mail m within p.waits come in
        elim (tick-Advances host new_smtp config plugins c k s w ms x here due serves run done) [
          | inl settled ↦ inl (subst (Through c t.queue) id (Settled-Through c x t.queue settled))
          | inr (same, batch, fetched, (full, earlier), different, settled) ↦
              let (d, known, waiting, time) = p.waits in
              inr (record {
                waits = (
                  d,
                  subst (λ (i : MailId). row_view c t.queue.table i ≡ row_view c s.table i) id same
                      ∙ known,
                  waiting,
                  time,
                );
                ids = map (λ (y : Mail). y.id) batch ++ p.ids;
                enough = omega (
                  arith,
                  length-append (map (λ (y : Mail). y.id) batch) p.ids,
                  length-map (λ (y : Mail). y.id) batch,
                  full,
                  p.enough,
                );
                once = still_once batch p.ids fetched different p.once p.through;
                through =
                    All-append (Through c t.queue) (map (λ (y : Mail). y.id) batch) p.ids
                      (map-All (λ (y : Mail). y.id) (Through c t.queue) batch
                        (All-weaken (Settled c t.queue) (λ y. Through c t.queue y.id)
                          (λ y. Settled-Through c y t.queue) batch settled))
                      (All-weaken (Through c s) (Through c t.queue) Through-tick p.ids p.through);
              })
        ]
