-- ===== src/Ingress/Identity.antt =====
-- A session of crates/ingress-smtp as a sequence of commands: under which name it runs, and what a
-- transaction collects.
use mathlib.Core.List.{append_assoc, append-nil}
use oxid_relay.Prelude.{
  ℕ, ◌≡◌, ◌∙◌, sym, ◌⊎◌, inl, inr, refl, ap, true, Option, none, some, List, [], ◌∷◌, ◌++◌, map,
  arith,
}
use oxid_relay.Prelude.Text.{Text}
use oxid_relay.Prelude.Result.{ok, Result-cases}
use oxid_relay.Config.Auth.{authenticate}
use oxid_relay.Config.Auth.Laws.{Accepts, authenticate_iff}
use oxid_relay.Ingress.{Outside, Context, RelayHandler, new_handler, is_allowed}
use oxid_relay.Ingress.Session.{
  try_auth, helo, mail, rcpt, data_start, data_chunk, auth_plain, auth_login,
}

pub data Command (Ip : Type 0) : Type 0 where
  send_helo : Ip → Text → Command Ip
  send_mail : Ip → Text → Text → Command Ip
  send_rcpt : Text → Command Ip
  send_data : Command Ip
  send_chunk : List ℕ → Command Ip
  send_plain : Text → Text → Text → Command Ip
  send_login : Text → Text → Command Ip

-- The login that a command offers.
abbrev pub credentials : {Ip : Type 0} → Command Ip → Option (Text × Text)
credentials (send_plain authorization_id user password) = some (user, password)
credentials (send_login user password) = some (user, password)
credentials _ = none

abbrev pub Offered : {Ip : Type 0} → Text → Text → List (Command Ip) → Type 0
Offered user password [] = ⊥
Offered user password (c ∷ cs) = (credentials c ≡ some (user, password)) ⊎ Offered user password cs

abbrev concat : List (List ℕ) → List ℕ
concat [] = []
concat (buf ∷ bufs) = buf ++ concat bufs

module _ {Ip Net Regex W : Type 0} (o : Outside Ip Net Regex W) (ctx : Context Net Regex) where
  unfoldable pub react : Command Ip → RelayHandler → RelayHandler
  react (send_helo ip domain) h = (helo o ctx ip domain h).1
  react (send_mail ip domain from) h = (mail o ctx ip domain from h).1
  react (send_rcpt to) h = (rcpt o ctx to h).1
  react send_data h = (data_start o ctx h).1
  react (send_chunk buf) h = data_chunk o ctx buf h
  react (send_plain authorization_id user password) h =
      (auth_plain o ctx authorization_id user password h).1
  react (send_login user password) h = (auth_login o ctx user password h).1

  unfoldable pub react_all : List (Command Ip) → RelayHandler → RelayHandler
  unfolding react
  react_all [] h = h
  react_all (c ∷ cs) h = react_all cs (react c h)

  abbrev pub Login : Text → Text → Text → Type 0
  Login user password name =
      Accepts o.env ctx.auth.services ctx.auth.self_register.enabled user password name

  try_auth-Login :
      (user password name : Text) (h : RelayHandler)
      → (try_auth o ctx user password h).1.authenticated_as ≡ some name
      → (h.authenticated_as ≡ some name) ⊎ Login user password name
  unfolding try_auth
  try_auth-Login user password name h e =
      elim (Result-cases (authenticate o.env ctx.auth user password)) [
        | inr (x, f) ↦ inl (rw (f, try_auth) at e)
        | inl (none, f) ↦ inl (rw (f, try_auth) at e)
        | inl (some other, f) ↦ inr (
            (authenticate_iff o.env ctx.auth user password name).0
              (f ∙ ap ok (rw (f, try_auth) at e)))
      ]

  react-Login :
      (c : Command Ip) (name : Text) (h : RelayHandler)
      → (react c h).authenticated_as ≡ some name
      → (h.authenticated_as ≡ some name)
        ⊎ ((user : Text) × (password : Text) × (credentials c ≡ some (user, password))
            × Login user password name)
  unfolding react helo mail rcpt data_start data_chunk auth_plain auth_login
  react-Login (send_helo ip domain) name h e = inl e
  react-Login (send_mail ip domain from) name h e = inl (ground arith)
  react-Login (send_rcpt to) name h e = inl e
  react-Login send_data name h e = inl e
  react-Login (send_chunk buf) name h e = inl e
  react-Login (send_plain authorization_id user password) name h e =
      elim (try_auth-Login user password name h e) [
        | inl f ↦ inl f
        | inr l ↦ inr (user, password, refl, l)
      ]
  react-Login (send_login user password) name h e = elim (try_auth-Login user password name h e) [
    | inl f ↦ inl f
    | inr l ↦ inr (user, password, refl, l)
  ]

  react_all-Login :
      (cs : List (Command Ip)) (name : Text) (h : RelayHandler)
      → (react_all cs h).authenticated_as ≡ some name
      → (h.authenticated_as ≡ some name)
        ⊎ ((user : Text) × (password : Text) × Offered user password cs × Login user password name)
  unfolding react_all
  react_all-Login [] name h e = inl e
  react_all-Login (c ∷ cs) name h e = elim (react_all-Login cs name (react c h) e) [
    | inr (user, password, offered, l) ↦ inr (user, password, inr offered, l)
    | inl f ↦ elim (react-Login c name h f) [
      | inl g ↦ inl g
      | inr (user, password, offered, l) ↦ inr (user, password, inl offered, l)
    ]
  ]

  -- A session that runs under a name was given, in one of its commands, a username and a password
  -- that the configuration accepts for that name; whatever else it sent, in whatever order.
  pub session-Login :
      (cs : List (Command Ip)) (name : Text)
      → (react_all cs new_handler).authenticated_as ≡ some name
      → (user : Text) × (password : Text) × Offered user password cs × Login user password name
  unfolding new_handler
  session-Login cs name e = ground (arith, react_all-Login cs name new_handler e)

  -- The commands of one mail.
  abbrev pub transaction : Ip → Text → Text → List Text → List (List ℕ) → List (Command Ip)
  transaction ip domain from tos bufs =
      send_mail ip domain from ∷ map send_rcpt tos ++ send_data ∷ map send_chunk bufs

  chunks :
      (bufs : List (List ℕ)) (h : RelayHandler)
      → react_all (map send_chunk bufs) h ≡ record h { data_bytes = h.data_bytes ++ concat bufs }
  unfolding react_all data_chunk
  chunks [] h = ap (λ (d : List ℕ). record h { data_bytes = d }) (sym (append-nil h.data_bytes))
  chunks (buf ∷ bufs) h =
      chunks bufs (data_chunk o ctx buf h)
      ∙ ap (λ (d : List ℕ). record h { data_bytes = d })
          (append_assoc h.data_bytes buf (concat bufs))

  mail_resets :
      (ip : Ip) (domain from : Text) (h : RelayHandler)
      → is_allowed o ctx.whitelist ip ≡ true
      → (mail o ctx ip domain from h).1
        ≡ record h { envelope_from = from; recipients = []; data_bytes = [] }
  unfolding mail
  mail_resets ip domain from h allowed = rw (allowed, mail)

  rcpts :
      (tos : List Text) (cs : List (Command Ip)) (h : RelayHandler)
      → react_all (map send_rcpt tos ++ cs) h
        ≡ react_all cs (record h { recipients = h.recipients ++ tos })
  unfolding react_all rcpt
  rcpts [] cs h =
      ap (λ (rs : List Text). react_all cs (record h { recipients = rs }))
        (sym (append-nil h.recipients))
  rcpts (to ∷ tos) cs h =
      rcpts tos cs (record h { recipients = h.recipients ++ to ∷ [] })
      ∙ ap (λ (rs : List Text). react_all cs (record h { recipients = rs }))
          (append_assoc h.recipients (to ∷ []) tos)

  -- From an allowed address, the commands of a mail leave exactly its sender, its recipients and
  -- its bytes, in order, and the identity of the session: nothing of what the connection sent
  -- before is left in them.
  pub react_all-transaction :
      (ip : Ip) (domain from : Text) (tos : List Text) (bufs : List (List ℕ)) (h : RelayHandler)
      → is_allowed o ctx.whitelist ip ≡ true
      → react_all (transaction ip domain from tos bufs) h ≡ record {
        authenticated_as = h.authenticated_as;
        envelope_from = from;
        recipients = tos;
        data_bytes = concat bufs;
      }
  unfolding react_all mail data_start
  react_all-transaction ip domain from tos bufs h allowed =
      ap (react_all (map send_rcpt tos ++ send_data ∷ map send_chunk bufs))
        (mail_resets ip domain from h allowed)
      ∙ rcpts tos _ (record h { envelope_from = from; recipients = []; data_bytes = [] })
      ∙ chunks bufs (record h { envelope_from = from; recipients = tos; data_bytes = [] })
