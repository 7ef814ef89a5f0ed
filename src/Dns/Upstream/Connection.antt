-- ===== src/Dns/Upstream/Connection.antt =====
-- The connection that a server keeps between queries: `query_dot` and `query_doh` of `Resolver`. What
-- an exchange on a connection gives, and what dialling gives, are arguments.
use ad_block.Base.{
  ℕ, ◌≡◌, refl, Bool, true, false, Option, none, some, ◌==◌, if◌then◌else◌, Result, ok, err,
}
use ad_block.Dns.Message.{Message}
use ad_block.Dns.Upstream.Answers.{is_ok}
use ad_block.Dns.Upstream.Addr.{Scheme, udp, tcp, tls, https}
use ad_block.Text.{Text}

pub data QueryError : Type 0 where
  failed : Text → QueryError
  http_status : ℕ → QueryError
  unparsable : QueryError

-- What an HTTP request gives: it cannot be built; sending it fails; or a status comes, with the body
-- if it is read within 65,536 bytes.
pub data Sent : Type 0 where
  not_built failed_to_send : QueryError → Sent
  response : ℕ → Result QueryError Text → Sent

unfoldable pub doh_reply :
    (Text → Option Message) → ℕ → Result QueryError Text → Result QueryError Message
doh_reply from_vec status body =
    if status == 200
    then (elim body [
      | err e ↦ err e
      | ok bytes ↦ elim (from_vec bytes) [ none ↦ err unparsable | some m ↦ ok m ]
    ])
    else err (http_status status)

module _ {C : Type 0} where
  -- A connection is kept if it has answered.
  abbrev pub kept_or :
      Result QueryError (Message × C)
      → (QueryError → Result QueryError Message × Option C)
      → Result QueryError Message × Option C
  kept_or (ok (m, used)) other = (ok m, some used)
  kept_or (err e) other = other e

  unfoldable pub query_fresh :
      (C → Result QueryError (Message × C))
      → Result QueryError C
      → Result QueryError Message × Option C
  query_fresh exchange (err e) = (err e, none)
  query_fresh exchange (ok stream) = kept_or (exchange stream) (λ e. (err e, none))

  -- The kept connection is tried first; when it fails, a new one is dialled.
  unfoldable pub query_dot :
      (C → Result QueryError (Message × C))
      → Result QueryError C
      → Option C
      → Result QueryError Message × Option C
  unfolding query_fresh
  query_dot exchange dialled none = query_fresh exchange dialled
  query_dot exchange dialled (some stream) =
      kept_or (exchange stream) (λ e. query_fresh exchange dialled)

  abbrev pub is_kept : Option C → Bool
  is_kept none = false
  is_kept (some c) = true

  abbrev Matched : Result QueryError Message × Option C → Type 0
  Matched q = is_kept q.1 ≡ is_ok q.0

  kept_or-Matched :
      (o : Result QueryError (Message × C))
      (other : QueryError → Result QueryError Message × Option C)
      → ((e : QueryError) → Matched (other e))
      → Matched (kept_or o other)
  kept_or-Matched (ok (m, used)) other h = refl
  kept_or-Matched (err e) other h = h e

  query_fresh-Matched :
      (exchange : C → Result QueryError (Message × C)) (dialled : Result QueryError C)
      → Matched (query_fresh exchange dialled)
  unfolding query_fresh
  query_fresh-Matched exchange (err e) = refl
  query_fresh-Matched exchange (ok stream) = kept_or-Matched (exchange stream) _ (λ e. refl)

  -- After a query over TLS a connection is kept exactly if there was a reply.
  pub query_dot-kept :
      (exchange : C → Result QueryError (Message × C)) (dialled : Result QueryError C)
      (held : Option C)
      → is_kept (query_dot exchange dialled held).1 ≡ is_ok (query_dot exchange dialled held).0
  unfolding query_dot
  query_dot-kept exchange dialled none = query_fresh-Matched exchange dialled
  query_dot-kept exchange dialled (some stream) =
      kept_or-Matched (exchange stream) _ (λ e. query_fresh-Matched exchange dialled)

  unfoldable pub query_sent :
      (Text → Option Message) → C → Sent → Result QueryError Message × Option C
  unfolding doh_reply
  query_sent from_vec sender (not_built e) = (err e, some sender)
  query_sent from_vec sender (failed_to_send e) = (err e, none)
  query_sent from_vec sender (response status body) = (doh_reply from_vec status body, some sender)

  -- A sender that is closed is replaced first; `dialled` has the handshake in it.
  unfoldable pub query_doh :
      (Text → Option Message)
      → (C → Bool)
      → (C → Sent)
      → Result QueryError C
      → Option C
      → Result QueryError Message × Option C
  unfolding query_sent
  query_doh from_vec is_closed send dialled held = elim (retained held) [
    | some sender ↦ query_sent from_vec sender (send sender)
    | none ↦ elim dialled [
      | err e ↦ (err e, held)
      | ok sender ↦ query_sent from_vec sender (send sender)
    ]
  ]
    where
      retained : Option C → Option C
      retained none = none
      retained (some sender) = if is_closed sender then none else some sender

-- `query_one`: by the scheme. A truncated answer over UDP is asked for again over TCP.
unfoldable pub query_one :
    Scheme
    → Result QueryError Message
    → Result QueryError Message
    → Result QueryError Message
    → Result QueryError Message
    → Result QueryError Message
query_one udp over_udp over_tcp over_dot over_doh = elim over_udp [
  | err e ↦ err e
  | ok m ↦ if m.truncation then over_tcp else ok m
]
query_one tcp over_udp over_tcp over_dot over_doh = over_tcp
query_one tls over_udp over_tcp over_dot over_doh = over_dot
query_one https over_udp over_tcp over_dot over_doh = over_doh
