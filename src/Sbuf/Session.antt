-- ===== src/Sbuf/Session.antt =====
-- A handler for the stream of src/sbuf.c: what handle_server_work of src/server.c makes of the
-- packets of a server with an active client, no fake requests outstanding and no parameters being
-- set. A response to a request that the client did not make is to be skipped, any other packet is
-- to be sent to the client. Left out are load_parameter, the tags of DEALLOCATE ALL and DISCARD
-- ALL, unknown types, and statement pooling, where an open transaction closes the connection.
use pgbouncer.Base.{
  ℕ, ◌+◌, ◌*◌, Bool, true, false, ◌&&◌, ◌||◌, Bytes, List, [], ◌∷◌, ◌++◌, ◌≡◌, ◌<◌, arith, Option,
  none, some, length, ◌==◌, ltb, if◌then◌else◌,
}
use pgbouncer.Prepare.{Link}
use pgbouncer.Prepare.Requests.{pop_outstanding_request, clear_outstanding_requests_until}

-- `query_failed` and `copy_mode` of the server's socket, and the queue of its requests.
pub record Session : Type 0 where
  pub link : Link
  pub query_failed : Bool
  pub copy_mode : Bool

abbrev header_of : ℕ → ℕ → Option (ℕ × ℕ)
header_of t len = if ltb len 4 then none else some (t, len + 1)

-- The type and the length of a packet, from the five bytes of its header. Of ReadyForQuery the
-- state behind it is wanted too.
abbrev pub header : Bytes → Option (ℕ × ℕ)
header (t ∷ a ∷ b ∷ c ∷ d ∷ bs) =
    if t == b'Z' && (length bs == 0)
    then none
    else header_of t (((a * 256 + b) * 256 + c) * 256 + d)
header _ = none

-- Whether more bytes may give a header where there is none.
abbrev pub waits : Bytes → Bool
waits (t ∷ a ∷ b ∷ c ∷ d ∷ bs) = t == b'Z' && (length bs == 0)
waits _ = true

-- The types of the requests that a response of a type answers.
abbrev requests_of : ℕ → List ℕ
requests_of type =
    if type == b'1'
    then b'P' ∷ []
    else if type == b'2'
    then b'B' ∷ []
    else if type == b'3'
    then b'C' ∷ []
    else if type == b'n' || type == b'T'
    then b'D' ∷ []
    else if type == b'C' || (type == b'I' || type == b's')
    then b'E' ∷ []
    else if type == b'Z'
    then b'S' ∷ b'Q' ∷ b'F' ∷ []
    else []

-- The end of copy mode, with the types of requests up to which the queue is cleared.
abbrev end_copy : List ℕ → Session → Session
end_copy types k =
    if k.copy_mode
    then record k { copy_mode = false; link = clear_outstanding_requests_until k.link types }
    else k

-- What is done before a request is taken off the queue.
abbrev before : ℕ → Session → Session
before type k =
    if type == b'E'
    then record (end_copy (b'c' ∷ b'f' ∷ []) k) { query_failed = true }
    else if type == b'C'
    then end_copy (b'c' ∷ []) k
    else if type == b'G' || type == b'W'
    then record k { copy_mode = true }
    else k

-- ReadyForQuery, for which no request is found after a failed query, clears the queue up to Sync.
abbrev popped : ℕ → Session → Option (Bool × Link) → Bool × Session
popped type k none = (
  false,
  if type == b'Z'
      then record k {
        query_failed = false;
        link =
            if k.query_failed then clear_outstanding_requests_until k.link (b'S' ∷ []) else k.link;
      }
      else k,
)
popped type k (some (skip, link)) =
    (skip, record k { query_failed = if type == b'Z' then false else k.query_failed; link = link })

-- Whether a packet is kept from the client, and the session then.
abbrev pub answered : Session → ℕ → Bool × Session
answered k type =
    let k1 = before type k in popped type k1 (pop_outstanding_request k1.link (requests_of type))

pub header_enough : (bs cs : Bytes) (r : ℕ × ℕ) → header bs ≡ some r → header (bs ++ cs) ≡ some r
header_enough [] cs r e = cc
header_enough (a ∷ []) cs r e = cc
header_enough (a ∷ b ∷ []) cs r e = cc
header_enough (a ∷ b ∷ c ∷ []) cs r e = cc
header_enough (a ∷ b ∷ c ∷ d ∷ []) cs r e = cc
header_enough (t ∷ a ∷ b ∷ c ∷ d ∷ x ∷ bs) cs r e = ground arith
header_enough (t ∷ a ∷ b ∷ c ∷ d ∷ []) [] r e = e
header_enough (t ∷ a ∷ b ∷ c ∷ d ∷ []) (x ∷ cs) r e = ground arith

pub header_length : (bs : Bytes) (r : ℕ × ℕ) → header bs ≡ some r → 0 < r.1
header_length [] r e = cc
header_length (a ∷ []) r e = cc
header_length (a ∷ b ∷ []) r e = cc
header_length (a ∷ b ∷ c ∷ []) r e = cc
header_length (a ∷ b ∷ c ∷ d ∷ []) r e = cc
header_length (t ∷ a ∷ b ∷ c ∷ d ∷ bs) r e = ground arith
