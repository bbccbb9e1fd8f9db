-- ===== src/Http/Session/Deal.antt =====
-- The loops of server::deal (include/server.h): reading until the header is whole, and sending. The
-- socket is given by what its calls return, one after the other.
use new_rojcpp.Prelude.{
  ℕ, List, [], ◌∷◌, ◌++◌, ◌-◌, Option, none, some, ◌==◌, length, take, drop, true, false,
}
use new_rojcpp.Buffer.{Allocator, Buffer, update_used_size, write}
use new_rojcpp.Http.Request.{ParseRet, Phr, Request, parse_header}
use new_rojcpp.Http.Session.{req_buff}

-- One call of `async_read`: the bytes, none when the client has closed, or an exception, which is
-- caught and leaves `nread` as it was.
pub data ReadResult : Type 0 where
  got : List ℕ → ReadResult
  failed : ReadResult

-- How the loop ends; after `closed`, too, the session goes on to `process`.
pub data ReadEnd : Type 0 where
  waiting closed ready parse_failed : Request → ReadEnd
  undefined : ReadEnd

module _ (alloc : Allocator) (phr_parse_request : List ℕ → Phr) where
  -- The read bytes stand in the buffer, or the old count is added once more.
  unfoldable pub receive : ReadResult → ℕ → Buffer → Option Buffer
  receive (ReadResult.got bytes) nread b = write alloc bytes b
  receive ReadResult.failed nread b = some (update_used_size nread b)

  unfoldable pub count : ReadResult → ℕ → ℕ
  count (ReadResult.got bytes) nread = length bytes
  count ReadResult.failed nread = nread

  -- What follows the parser; `again` is the next round, `parse_failed` the exception.
  unfoldable pub after_parse : (Request → ReadEnd) → Option (ParseRet × Request) → ReadEnd
  after_parse again none = ReadEnd.undefined
  after_parse again (some (ParseRet.incomplete, req)) = again req
  after_parse again (some (ParseRet.parse_error, req)) = elim (req_buff alloc req.buff) [
    | none ↦ ReadEnd.undefined
    | some b ↦ ReadEnd.parse_failed (record req { buff = b })
  ]
  after_parse again (some (ParseRet.header_length n, req)) = ReadEnd.ready req

  -- The loop, with what is left to read.
  unfoldable pub read_loop : List ReadResult → ℕ → Request → ReadEnd
  read_loop [] nread req = ReadEnd.waiting req
  read_loop (r ∷ rs) nread req = elim (req_buff alloc req.buff) [
    | none ↦ ReadEnd.undefined
    | some b ↦ elim (count r nread == 0) [
      | true ↦ ReadEnd.closed (record req { buff = b })
      | false ↦ elim (receive r nread b) [
        | none ↦ ReadEnd.undefined
        | some b' ↦
            after_parse (read_loop rs (count r nread))
              (parse_header phr_parse_request (record req { buff = b' }))
      ]
    ]
  ]

-- What is sent, when the calls of `async_send` take so many bytes, and what is then left. A call takes
-- at most what remains, so that `remain -= sent` does not wrap.
unfoldable pub send_loop : List ℕ → List ℕ → List ℕ × List ℕ
send_loop [] remain = ([], remain)
send_loop (sent ∷ calls) remain =
    let rest = send_loop calls (drop sent remain) in
    elim (sent == 0) [
      | true ↦ ([], remain)
      | false ↦ elim (length remain - sent == 0) [
        | true ↦ (take sent remain, drop sent remain)
        | false ↦ (take sent remain ++ rest.0, rest.1)
      ]
    ]
