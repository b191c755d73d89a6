-- ===== src/Net/Ingress/Body.antt =====
-- What `readBody` reads.
use upstat.Common.{
  sym, ◌∙◌, some, none, ltb, ℕ, zero, suc, ◌+◌, ◌≤◌, ◌<◌, ◌≡◌, refl, ap, ◌≢◌, inl, inr, Option,
  List, [], ◌∷◌, ◌++◌, map, arith, leb, if◌then◌else◌, nat_eq, string_eq, leb→le, Bool-cases,
  or_else, length, length-append, Result, ok, err,
}
use mathlib.Core.List.{append_assoc, append-nil}
use upstat.Net.Ingress.{
  waiting, Buffer, BodyEvent, bytes, finished, failed, closed, settled, flat, resized, concat,
  read_from, read_body, too_large, receive, Ingress, received,
}

flat-append : (xs ys : List Buffer) → flat (xs ++ ys) ≡ flat xs ++ flat ys
flat-append [] ys = refl
flat-append (x ∷ xs) ys = rw (flat-append xs ys, append_assoc)

resized-length : (b : Buffer) → resized (length b) b ≡ b
resized-length [] = refl
resized-length (x ∷ b) = rw (resized-length b)

flat-snoc :
    (before : List Buffer) (c tail : Buffer)
    → flat (before ++ c ∷ []) ++ tail ≡ flat before ++ (c ++ tail)
flat-snoc before c tail = simp (flat-append, append_assoc, append-nil)

length-flat-snoc :
    (before : List Buffer) (c : Buffer)
    → length (flat (before ++ c ∷ [])) ≡ length (flat before) + length c
length-flat-snoc before c = rw (flat-append, length-append {0}, append-nil)

read_from_fits :
    (max_bytes size : ℕ) (before chunks : List Buffer) (rest : List BodyEvent)
    → size ≡ length (flat before)
    → size + length (flat chunks) ≤ max_bytes
    → read_from max_bytes before size (map bytes chunks ++ finished ∷ rest)
      ≡ settled (ok (flat before ++ flat chunks))
unfolding read_from concat
read_from_fits max_bytes size before [] rest e h = rw (e, append-nil, resized-length)
read_from_fits max_bytes size before (c ∷ chunks) rest e h =
    let longer = length-append c (flat chunks) in
    let next =
      read_from_fits max_bytes (size + length c) (before ++ c ∷ []) chunks rest
        (omega (arith, length-flat-snoc before c)) (omega arith) in
    ground (arith, next, flat-snoc before c (flat chunks))

read_from_over :
    (max_bytes size : ℕ) (before chunks : List Buffer) (rest : List BodyEvent)
    → size ≤ max_bytes
    → max_bytes < size + length (flat chunks)
    → read_from max_bytes before size (map bytes chunks ++ rest)
      ≡ settled (err (too_large max_bytes))
unfolding read_from
read_from_over max_bytes size before [] rest low h = absurd (omega arith)
read_from_over max_bytes size before (c ∷ chunks) rest low h =
    let longer = length-append c (flat chunks) in
    ground (arith, read_from_over max_bytes (size + length c) (before ++ c ∷ []) chunks rest)

-- A whole body of at most `max_bytes` bytes, in any number of chunks, is read as the bytes that
-- were sent; a longer one is refused with 413, whatever follows.
pub read_body-chunks :
    (max_bytes : ℕ) (chunks : List Buffer) (rest : List BodyEvent)
    → read_body max_bytes (map bytes chunks ++ finished ∷ rest)
      ≡ settled (
          if leb (length (flat chunks)) max_bytes
          then ok (flat chunks)
          else err (too_large max_bytes))
unfolding read_body
read_body-chunks max_bytes chunks rest = elim (Bool-cases (leb (length (flat chunks)) max_bytes)) [
  | inl small ↦
      rw small (read_from_fits max_bytes 0 [] chunks rest refl (omega (arith, leb→le _ _ small)))
  | inr big ↦
      rw big (read_from_over max_bytes 0 [] chunks (finished ∷ rest) (omega arith) (ground arith))
]

length-resized : (n : ℕ) (b : Buffer) → length (resized n b) ≡ n
length-resized zero b = refl
length-resized (suc n) [] = ap suc (length-resized n [])
length-resized (suc n) (x ∷ b) = ap suc (length-resized n b)

read_from-bounded :
    (max_bytes size : ℕ) (before : List Buffer) (es : List BodyEvent) (body : Buffer)
    → size ≤ max_bytes
    → read_from max_bytes before size es ≡ settled (ok body)
    → length body ≤ max_bytes
unfolding read_from concat
read_from-bounded max_bytes size before [] body low e = cc
read_from-bounded max_bytes size before (bytes c ∷ es) body low e =
    ground (arith, read_from-bounded max_bytes (size + length c) (before ++ c ∷ []) es body)
read_from-bounded max_bytes size before (finished ∷ es) body low e =
    ground (arith, length-resized size (flat before))
read_from-bounded max_bytes size before (failed ∷ es) body low e = cc
read_from-bounded max_bytes size before (closed complete ∷ es) body low e =
    ground (arith, read_from-bounded max_bytes size before es body low)

read_body-bounded :
    (max_bytes : ℕ) (es : List BodyEvent) (body : Buffer)
    → read_body max_bytes es ≡ settled (ok body)
    → length body ≤ max_bytes
unfolding read_body
read_body-bounded max_bytes es body = read_from-bounded max_bytes 0 [] es body (omega arith)

abbrev after_chunk : Buffer → Option Buffer → Option Buffer
after_chunk c none = none
after_chunk c (some b) = some (c ++ b)

-- The bytes of a stream that comes to its end, all of them in order; none where it fails, is cut
-- short, or has not ended.
abbrev pub body_of : List BodyEvent → Option Buffer
body_of [] = none
body_of (bytes c ∷ es) = after_chunk c (body_of es)
body_of (finished ∷ es) = some []
body_of (failed ∷ es) = none
body_of (closed complete ∷ es) = let rest = body_of es in if complete then rest else none

after_chunk_lem :
    (before : List Buffer) (c body tail : Buffer) (o : Option Buffer)
    → o ≡ some tail
    → body ≡ flat (before ++ c ∷ []) ++ tail
    → (rest : Buffer) × (after_chunk c o ≡ some rest) × (body ≡ flat before ++ rest)
after_chunk_lem before c body tail o e h =
    (c ++ tail, ap (after_chunk c) e, h ∙ flat-snoc before c tail)

read_from-body_of :
    (max_bytes size : ℕ) (before : List Buffer) (es : List BodyEvent) (body : Buffer)
    → size ≡ length (flat before)
    → read_from max_bytes before size es ≡ settled (ok body)
    → (rest : Buffer) × (body_of es ≡ some rest) × (body ≡ flat before ++ rest)
unfolding read_from concat
read_from-body_of max_bytes size before [] body h e = cc
read_from-body_of max_bytes size before (bytes c ∷ es) body h e =
    elim (Bool-cases (ltb max_bytes (size + length c))) [
      | inl over ↦ absurd (ground (arith, over))
      | inr within ↦
          let (tail, found, same) =
            read_from-body_of max_bytes (size + length c) (before ++ c ∷ []) es body
              (omega (arith, length-flat-snoc before c)) (ground (arith, within)) in
          after_chunk_lem before c body tail (body_of es) found same
    ]
read_from-body_of max_bytes size before (finished ∷ es) body h e =
    let made : resized size (flat before) ≡ body = cc in
    (
      [],
      refl,
      sym made
          ∙ ap (λ (n : ℕ). resized n (flat before)) h
          ∙ resized-length (flat before)
          ∙ sym (append-nil (flat before)),
    )
read_from-body_of max_bytes size before (failed ∷ es) body h e = cc
read_from-body_of max_bytes size before (closed complete ∷ es) body h e =
    elim (Bool-cases complete) [
      | inr short ↦ absurd (ground (arith, short))
      | inl whole ↦
          rw whole (read_from-body_of max_bytes size before es body h (ground (arith, whole)))
    ]

-- A body that is handed on is what the stream sent, read to its end.
pub receive-body_of :
    {T : Type 0} (max_concurrent max_bytes : ℕ) (checked : Result T) (declared : Option ℕ)
    (es : List BodyEvent) (s : Ingress) (t : T) (body : Buffer)
    → (receive max_concurrent max_bytes checked declared es s).0 ≡ received t body
    → body_of es ≡ some body
unfolding receive read_body
receive-body_of max_concurrent max_bytes checked declared es s t body e =
    let read : read_from max_bytes [] 0 es ≡ settled (ok body) = ground arith in
    let (rest, found, same) = read_from-body_of max_bytes 0 [] es body refl read in
    found ∙ ap some (sym same)

-- Whatever the stream does, a body is handed on only after the check accepted its caller, and has
-- at most `max_bytes` bytes; a declared length was within the limit too.
pub receive-bounded :
    {T : Type 0} (max_concurrent max_bytes : ℕ) (checked : Result T) (declared : Option ℕ)
    (es : List BodyEvent) (s : Ingress) (t : T) (body : Buffer)
    → (receive max_concurrent max_bytes checked declared es s).0 ≡ received t body
    → (checked ≡ ok t) × (length body ≤ max_bytes) × (or_else declared 0 ≤ max_bytes)
unfolding receive
receive-bounded max_concurrent max_bytes checked declared es s t body e =
    ground (arith, read_body-bounded max_bytes es body)

-- Once a request is answered, on every path, the count of large bodies in memory is what it was.
pub receive-balanced :
    {T : Type 0} (max_concurrent max_bytes : ℕ) (checked : Result T) (declared : Option ℕ)
    (es : List BodyEvent) (s : Ingress)
    → (receive max_concurrent max_bytes checked declared es s).0 ≢ waiting
    → (receive max_concurrent max_bytes checked declared es s).1 ≡ s
unfolding receive
receive-balanced max_concurrent max_bytes checked declared es s done = ground arith
