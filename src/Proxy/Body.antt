-- ===== src/Proxy/Body.antt =====
-- `readChunk` and `boundedBody`: a request's body is read up to a limit.
pub mod Limit
use relay_workflow_automatio.Prelude.{
  ℕ, ◌+◌, ◌*◌, ◌^◌, Bool, true, false, not, ◌&&◌, ◌||◌, String, Option, none, some, List, [], ◌∷◌,
  ◌++◌, length, ltb, eqb, if◌then◌else◌,
}
use relay_workflow_automatio.Js.{Num, nan, infinite, finite, integer, num_lt}
use relay_workflow_automatio.Proxy.Config.{Platform}

-- What one read of the stream gives: bytes, the abort of the signal (by the client, or by the
-- deadline), or an error. The list of reads ends where the stream is done.
pub data Read : Type 0 where
  chunk : List ℕ → Read
  aborted : Bool → Read
  broken : Read

pub data Body : Type 0 where
  no_body : Body
  bytes : List ℕ → Body
  over_limit : Body
  stopped : Bool → Body
  unreadable : Body

-- `a < b`
unfoldable pub num_less : Num → Num → Bool
num_less (finite false m k) (finite false n j) = ltb (m * 2 ^ j) (n * 2 ^ k)
num_less (finite true m k) (finite false n j) = not (eqb m 0 && eqb n 0)
num_less (finite false m k) (finite true n j) = false
num_less (finite true m k) (finite true n j) = ltb (n * 2 ^ k) (m * 2 ^ j)
num_less (finite s m k) (infinite negative) = not negative
num_less (infinite negative) (finite s n j) = negative
num_less (infinite negative) (infinite other) = negative && not other
num_less _ _ = false

-- the loop of `boundedBody`, with the bytes of the chunks so far
unfoldable pub read_body : Num → List ℕ → List Read → Body
read_body max_body taken [] = bytes taken
read_body max_body taken (aborted by_client ∷ reads) = stopped by_client
read_body max_body taken (broken ∷ reads) = unreadable
read_body max_body taken (chunk bs ∷ reads) =
    let rest = read_body max_body (taken ++ bs) reads in
    if num_lt max_body (length taken + length bs) then over_limit else rest

-- `Number(headers.get("content-length"))`, where the missing header reads as zero
abbrev announced : Platform → Option String → Num
announced platform none = integer 0
announced platform (some s) = platform.text_number s

unfoldable pub bounded_body : Platform → Num → Option String → Option (List Read) → Body
bounded_body platform max_body content_length none = no_body
bounded_body platform max_body content_length (some reads) =
    if num_less max_body (announced platform content_length)
    then over_limit
    else read_body max_body [] reads
