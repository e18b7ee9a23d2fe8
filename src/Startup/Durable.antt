-- ===== src/Startup/Durable.antt =====
-- The dispatcher that crates/oxid-relay/src/main.rs builds, running on the table of
-- crates/queue-sqlite.
use mathlib.Core.Option
use mathlib.Core.List.{append-nil}
use oxid_relay.Prelude.{
  inl, inr, false, subst, All, All-weaken, [], ◌++◌, ◌≡◌, ◌⊎◌, refl, sym, ap, ◌∙◌, Option, none,
  some, List, map,
}
use oxid_relay.Prelude.Text.{Text, text_eq, text_eq_iff}
use oxid_relay.Prelude.Result.{Result}
use oxid_relay.Message.{CoreError, MailId}
use oxid_relay.Config.{Config, SmtpConfig}
use oxid_relay.Queue.Counts.{both-All}
use oxid_relay.Queue.Keyed.{find_by, find_self}
use oxid_relay.Queue.Row.{Codec, Row}
use oxid_relay.Queue.Row.RoundTrip.{IsCodec}
use oxid_relay.Queue.Sqlite.{find_row}
use oxid_relay.Queue.Instance.{State, sqlite_queue}
use oxid_relay.Queue.Instance.Rows.{sqlite_laws, view-sqlite_laws, valid-sqlite_laws}
use oxid_relay.Queue.Instance.Rows.Keys.{IsKeyed, IsPrinted}
use oxid_relay.Queue.Instance.Rows.View.{find_row-find_by, row_delivery, status_of}
use oxid_relay.Queue.Instance.Rows.Payload.{Payload, payload, payload-Preserves, find_row-payload}
use oxid_relay.Dispatcher.{Transport, Host}
use oxid_relay.Dispatcher.Run.{Run, Run-Preserves, Run-keeps_final, is_final, is_final-cases}
use oxid_relay.Startup.{dispatcher}

some_inj : {A : Type 0} (a b : A) → some a ≡ some b → a ≡ b
some_inj a b h = cc

module _ {W : Type 0} (host : Host W) (new_smtp : SmtpConfig → Result (Transport W) CoreError)
    (config : Config) (plugins : List (Text × Transport W)) (c : Codec) (k : IsCodec c) where
  row_back :
      (before after : Option Row) (r : Row)
      → before ≡ some r
      → Option.map payload after ≡ some (payload r)
      → Option.map row_delivery after ≡ some (row_delivery r)
      → (r' : Row) × (after ≡ some r')
        × (payload r' ≡ payload r)
        × (row_delivery r' ≡ row_delivery r)
  row_back before none r found same kept = absurd (cc)
  row_back before (some r') r found same kept = (r', refl, some_inj _ _ same, some_inj _ _ kept)

  -- The row of `s` is found under its id in `t`, and has all that `r` has but for the update time.
  abbrev pub IsSame : State Row → Row → Type 0
  IsSame t r =
      (j : MailId) × (r.id ≡ c.uuid_to_string j)
      × (r' : Row) × (find_row c j t.table ≡ some r')
      × (payload r' ≡ payload r)
      × (row_delivery r' ≡ row_delivery r)

  -- A row that was not sent or dead, or that is the same.
  abbrev pub Settled : State Row → Row → Type 0
  Settled t r = (is_final (status_of r.status) ≡ false) ⊎ IsSame t r

  module _ (s : State Row) (w : W) {s' : State Row} {w' : W} (keyed : IsKeyed c s.table)
      (run : Run host (dispatcher new_smtp config (sqlite_queue c) plugins) s w s' w') where
    Run-payload : (more : List Payload) × (map payload s'.table ≡ map payload s.table ++ more)
    unfolding dispatcher
    Run-payload =
        Run-Preserves host (dispatcher new_smtp config (sqlite_queue c) plugins) _
          (payload-Preserves c (map payload s.table)) s w ([], sym (append-nil _)) run

    row-Settled :
        (r : Row)
        → find_by (λ (x : Row). text_eq x.id r.id) s.table ≡ some r
        → IsPrinted c r
        → Settled s' r
    unfolding dispatcher
    row-Settled r self (j, printed) = elim (is_final-cases (status_of r.status)) [
      | inr unsettled ↦ inl unsettled
      | inl final ↦
          let found : find_row c j s.table ≡ some r =
            find_row-find_by c j s.table
            ∙ subst (λ (i : Text). find_by (λ (x : Row). text_eq x.id i) s.table ≡ some r) printed
                self in
          let known : (sqlite_laws c k).view s j ≡ some (row_delivery r) =
            view-sqlite_laws c k s j ∙ ap (Option.map row_delivery) found in
          let kept =
            (Run-keeps_final host (dispatcher new_smtp config (sqlite_queue c) plugins)
              (sqlite_laws c k) s w j (row_delivery r) (valid-sqlite_laws c k s keyed) known final
              run).1 in
          let (r', there, same, still) =
            row_back (find_row c j s.table) (find_row c j s'.table) r found
              (find_row-payload c j s.table s'.table Run-payload.0 (payload r) Run-payload.1
                (ap (Option.map payload) found))
              (sym (view-sqlite_laws c k s' j) ∙ kept) in
          inr (j, printed, r', there, same, still)
    ]

    -- On a table whose ids are those of mails and all different, a run of the dispatcher that the
    -- daemon builds, with its recovery, its ticks, whatever fails in them, and mails that arrive at
    -- any time, leaves every row in its place with the mail that it holds, and adds rows behind
    -- them at most: none is lost, moved or given other contents. And each row that is sent or dead
    -- at first is then still found under its id with the same mail, status, number of attempts,
    -- last error and time of the next attempt.
    pub Run-durable :
        (more : List Payload) × (map payload s'.table ≡ map payload s.table ++ more)
        × All (Settled s') s.table
    Run-durable =
        let (more, rows) = Run-payload in
        (
          more,
          rows,
          All-weaken
              (λ (r : Row).
                (find_by (λ (x : Row). text_eq x.id r.id) s.table ≡ some r) × IsPrinted c r)
              (Settled s') (λ r (self, printed). row-Settled r self printed) s.table
              (both-All _ _ s.table
                (find_self (λ (r : Row). r.id) text_eq text_eq_iff s.table keyed.0) keyed.1),
        )
