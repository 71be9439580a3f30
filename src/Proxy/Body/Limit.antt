-- ===== src/Proxy/Body/Limit.antt =====
-- A body is read exactly when it is within the limit.
use relay_workflow_automatio.Prelude.{
  ℕ, ◌+◌, ◌*◌, ◌^◌, ◌≤◌, Bool, true, false, not, String, Option, none, some, List, [], ◌∷◌, ◌++◌,
  ◌≡◌, inl, inr, refl, arith, length, length-append, append_assoc, append-nil, Bool-cases, sym, ltb,
  if◌then◌else◌,
}
use native.Mathlib.Nat.{mul-le-mul_right}
use relay_workflow_automatio.Js.{Num, num_lt, nan, infinite, finite}
use relay_workflow_automatio.Proxy.Config.{Platform}
use relay_workflow_automatio.Proxy.Body.{
  Read, chunk, aborted, broken, Body, no_body, bytes, over_limit, read_body, num_less, announced,
  bounded_body,
}

-- the chunks' bytes, and a stream of chunks only
abbrev pub content : List (List ℕ) → List ℕ
content [] = []
content (bs ∷ chunks) = bs ++ content chunks

abbrev pub chunks_of : List (List ℕ) → List Read
chunks_of [] = []
chunks_of (bs ∷ chunks) = chunk bs ∷ chunks_of chunks

-- The body holds no more bytes than the limit, and is no error.
abbrev pub fits : Num → Body → Bool
fits limit no_body = true
fits limit (bytes bs) = not (num_lt limit (length bs))
fits limit _ = false

scaled_lt : (m k a b : ℕ) → a ≤ b → ltb m (b * 2 ^ k) ≡ false → ltb m (a * 2 ^ k) ≡ false
scaled_lt m k a b le h = let scaled = mul-le-mul_right (2 ^ k) le in ground (arith, scaled)

-- a larger size is beyond the limit too
num_lt_mono : (n : Num) (a b : ℕ) → a ≤ b → num_lt n b ≡ false → num_lt n a ≡ false
unfolding num_lt
num_lt_mono nan a b le h = refl
num_lt_mono (infinite s) a b le h = h
num_lt_mono (finite false m k) a b le h = scaled_lt m k a b le h
num_lt_mono (finite true m k) a b le h = ground arith

-- What is read is within the limit, whatever the stream gives.
pub read_body-fits :
    (limit : Num) (taken : List ℕ) (reads : List Read) (bs : List ℕ)
    → num_lt limit (length taken) ≡ false
    → read_body limit taken reads ≡ bytes bs
    → num_lt limit (length bs) ≡ false
unfolding read_body
read_body-fits limit taken [] bs small e = ground arith
read_body-fits limit taken (aborted by_client ∷ reads) bs small e = ground arith
read_body-fits limit taken (broken ∷ reads) bs small e = ground arith
read_body-fits limit taken (chunk c ∷ reads) bs small e =
    ground (arith, read_body-fits limit (taken ++ c) reads bs, length-append taken c)

-- The bytes of the whole stream, if they are within the limit.
abbrev pub limited : Num → List ℕ → Body
limited limit bs = if num_lt limit (length bs) then over_limit else bytes bs

read_body_whole :
    (limit : Num) (taken : List ℕ) (chunks : List (List ℕ))
    → num_lt limit (length taken) ≡ false
    → read_body limit taken (chunks_of chunks) ≡ limited limit (taken ++ content chunks)
unfolding read_body
read_body_whole limit taken [] small = rw (append-nil, small) refl
read_body_whole limit taken (c ∷ chunks) small =
    elim (Bool-cases (num_lt limit (length taken + length c))) [
      | inl over ↦
          let beyond =
            num_lt_mono limit (length taken + length c) (length (taken ++ (c ++ content chunks))) (
              omega (
                arith,
                length-append taken (c ++ content chunks),
                length-append c (content chunks),
              )) in
          rw over (ground (arith, beyond))
      | inr under ↦
          rw (under, sym (append_assoc taken c (content chunks)))
            (read_body_whole limit (taken ++ c) chunks (rw (length-append taken c) under))
    ]

-- A body that arrives whole, with no announced length beyond the limit, is accepted exactly when
-- its bytes are within the limit, and then it is all of them in order.
pub bounded_body-eq-limited :
    (platform : Platform) (limit : Num) (content_length : Option String) (chunks : List (List ℕ))
    → num_less limit (announced platform content_length) ≡ false
    → num_lt limit 0 ≡ false
    → bounded_body platform limit content_length (some (chunks_of chunks))
      ≡ limited limit (content chunks)
unfolding bounded_body
bounded_body-eq-limited platform limit content_length chunks small natural =
    rw small (read_body_whole limit [] chunks natural)

-- A body that the proxy accepts is within the limit.
pub bounded_body-fits :
    (platform : Platform) (limit : Num) (content_length : Option String)
    (reads : Option (List Read)) (bs : List ℕ)
    → num_lt limit 0 ≡ false
    → bounded_body platform limit content_length reads ≡ bytes bs
    → num_lt limit (length bs) ≡ false
unfolding bounded_body
bounded_body-fits platform limit content_length none bs natural e = ground arith
bounded_body-fits platform limit content_length (some reads) bs natural e =
    ground (arith, read_body-fits limit [] reads bs natural)
