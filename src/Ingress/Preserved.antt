-- ===== src/Ingress/Preserved.antt =====
-- What `data_end` of crates/ingress-smtp/src/lib.rs keeps true of the queue: what enqueueing keeps.
use oxid_relay.Prelude.{ℕ, List, [], ◌∷◌, inl, inr}
use oxid_relay.Prelude.Result.{Result-cases}
use oxid_relay.Message.{Mail, NewMail, validate}
use oxid_relay.Config.Routing.{Route, RouteTarget, reject, deliver}
use oxid_relay.Queue.{Queue}
use oxid_relay.Ingress.{Outside, Context, RelayHandler}
use oxid_relay.Ingress.Accept.{
  build_new_mail, data_end, enqueue_target, enqueue_targets, fan_out, retarget, route,
}

module _ {Ip Net Regex W S : Type 0} (o : Outside Ip Net Regex W) (ctx : Context Net Regex)
    (q : Queue S) (P : S → Type 0) (keeps : (m : Mail) (s : S) → P s → P (q.enqueue m s).1) where
  target-Preserves :
      (new : NewMail) (t : RouteTarget) (s : S) (w : W)
      → P s
      → P (enqueue_target o ctx q new t (s, w)).1
  unfolding enqueue_target
  target-Preserves new t s w h = elim (Result-cases (validate (retarget new t))) [
    | inr (x, f) ↦ rw (f, enqueue_target) h
    | inl (u, f) ↦ rw (f, enqueue_target) (keeps _ s h)
  ]

  targets-Preserves :
      (new : NewMail) (ts : List RouteTarget) (accepted : ℕ) (s : S) (w : W)
      → P s
      → P (enqueue_targets o ctx q new ts accepted (s, w)).1
  unfolding enqueue_targets
  targets-Preserves new [] accepted s w h = h
  targets-Preserves new (t ∷ ts) accepted s w h =
      targets-Preserves new ts _ _ _ (target-Preserves new t s w h)

  fan_out-Preserves :
      (new : NewMail) (r : Route) (s : S) (w : W) → P s → P (fan_out o ctx q new r (s, w)).1
  unfolding fan_out
  fan_out-Preserves new reject s w h = h
  fan_out-Preserves new (deliver ts) s w h = targets-Preserves new ts 0 s w h

  pub data_end-Preserves :
      (h : RelayHandler) (s : S) (w : W) → P s → P (data_end o ctx q h (s, w)).1
  unfolding data_end
  data_end-Preserves h s w p = elim (Result-cases (build_new_mail o ctx h)) [
    | inr (x, f) ↦ rw (f, data_end) p
    | inl (new, f) ↦ rw (f, data_end) (fan_out-Preserves new (route o ctx new) s w p)
  ]
