-- ===== src/Startup/Accepted.antt =====
-- A message that the ingress of crates/ingress-smtp has accepted, in the table of
-- crates/queue-sqlite.
use mathlib.Core.List.{append-nil}
use oxid_relay.Prelude.{◌≡◌, ◌∙◌, ap, sym, refl, false, List, [], ◌∷◌, ◌++◌, is_empty, All, map}
use oxid_relay.Ingress.{Outside, Context, RelayHandler, Response, strip_brackets}
use oxid_relay.Ingress.Accept.{data_end}
use oxid_relay.Ingress.Stored.{data_end-Stored, Entry}
use oxid_relay.Queue.Row.{Codec, Row}
use oxid_relay.Queue.Instance.{State, sqlite_queue}
use oxid_relay.Queue.Instance.Enqueues.{sqlite_enqueue_laws, contents-sqlite_enqueue_laws}
use oxid_relay.Queue.Instance.Rows.Payload.{Payload, payload, payload-Preserves}
use oxid_relay.Queue.Later.{Later, Later-Preserves}

map-append :
    (rows added : List Row) → map payload (rows ++ added) ≡ map payload rows ++ map payload added
map-append [] added = refl
map-append (r ∷ rows) added = ap (◌∷◌ (payload r)) (map-append rows added)

module _ {Ip Net Regex W : Type 0} (o : Outside Ip Net Regex W) (ctx : Context Net Regex)
    (c : Codec) where
  -- A message that was answered with OK is not lost. Its mails, at least one, each from the sender
  -- of the transaction, valid and fresh, stand in the table behind the rows that were there; and
  -- whatever calls of the queue come later, from whichever clients and with whatever failures of
  -- the database, all these rows are still there, in this order, with the mails that they hold.
  pub data_end-durable :
      (h : RelayHandler) (s : State Row) (w : W) {later : State Row}
      → (data_end o ctx (sqlite_queue c) h (s, w)).0 ≡ Response.ok
      → Later (sqlite_queue c) (data_end o ctx (sqlite_queue c) h (s, w)).1 later
      → (added : List Row) × (more : List Payload) × (map payload later.table
          ≡ map payload s.table ++ map payload added ++ more)
        × (is_empty added ≡ false)
        × All
            (Entry o ctx (sqlite_queue c) (sqlite_enqueue_laws c) (strip_brackets h.envelope_from))
            added
  data_end-durable h s w {later} accepted l =
      let (added, stored, answered, fresh) =
        data_end-Stored o ctx (sqlite_queue c) (sqlite_enqueue_laws c) h s w in
      let entered = (data_end o ctx (sqlite_queue c) h (s, w)).1 in
      let appended =
        (sym (contents-sqlite_enqueue_laws c entered) ∙ stored)
        ∙ ap (λ rows. rows ++ added) (contents-sqlite_enqueue_laws c s) in
      let (more, kept) =
        Later-Preserves (sqlite_queue c) _
          (payload-Preserves c (map payload s.table ++ map payload added))
          ([], (ap (map payload) appended ∙ map-append s.table added) ∙ sym (append-nil _)) l in
      (added, more, kept, answered.0 accepted, fresh)
