-- ===== src/Connection/Files.antt =====
-- modules/communicator/file_sender.cpp: the class FileSender, which writes a file to a socket in
-- chunks. What `sendfile` does is an argument.
use paracooba.Prelude.{
  ℕ, suc, ◌+◌, ◌-◌, ◌≤◌, ◌<◌, ◌≡◌, ◌≢◌, refl, ap, ◌∙◌, sym, Bool, true, false, not, ◌&&◌, Option,
  none, some, List, [], ◌∷◌, ◌++◌, length, take, drop, ltb, leb, ◌==◌, if◌then◌else◌, if_intro,
  arith, append_assoc, take-drop, take_all, Bool-cases, inl, inr, Option-cases, map, append-nil,
  length-take, length-drop,
}

-- strcpy: the characters and a zero, over what is there.
unfoldable pub strcpy : List ℕ → List ℕ → List ℕ
strcpy name memory = name ++ 0 ∷ drop (suc (length name)) memory

-- The name up to the zero; without one, reading goes on beyond the array, which is not modelled.
unfoldable pub read_name : List ℕ → List ℕ
read_name [] = []
read_name (x ∷ xs) = if x == 0 then [] else x ∷ read_name xs

-- The last 255 characters of a longer file name.
unfoldable pub compact : List ℕ → List ℕ
compact name = if ltb 255 (length name) then drop (length name - 255) name else name

-- PacketFileHeader, as it is sent.
unfoldable pub file_header : (memory name : List ℕ) → List ℕ
unfolding strcpy compact
file_header memory name = take 255 (strcpy (compact name) memory)

-- One call of `sendfile`: it moved so many bytes or to the end of the file, or it failed.
pub data Sendfile : Type 0 where
  moved : ℕ → Sendfile
  again failed : Sendfile

-- FileSender::State; `finished` is what the callback got, none before it is called.
pub record FileSender : Type 0 where
  pub source : List ℕ
  pub file_size : ℕ
  pub offset : ℕ
  pub eagain_tries : ℕ
  pub written : List ℕ
  pub finished : Option Bool

-- The constructor, and `send` with a file header that is written as a whole.
unfoldable pub file_sender : (memory name bytes : List ℕ) → FileSender
unfolding file_header
file_sender memory name bytes = record {
  source = bytes;
  file_size = length bytes;
  offset = 0;
  eagain_tries = 0;
  written = file_header memory name;
  finished = none;
}

-- What send_chunk does with the result of `sendfile`.
unfoldable pub send_chunk : Sendfile → FileSender → FileSender
send_chunk (moved n) s =
    let chunk = take n (drop s.offset s.source) in
    record s { offset = s.offset + length chunk; eagain_tries = 0; written = s.written ++ chunk }
send_chunk again s =
    let s1 = record s { eagain_tries = suc s.eagain_tries } in
    if ltb 3 s1.eagain_tries then record s1 { finished = some false } else s1
send_chunk failed s = record s { finished = some false }

-- send_chunk called until the callback is called or there is no further result.
unfoldable pub send_chunks : (first : Bool) → List Sendfile → FileSender → FileSender
unfolding send_chunk
send_chunks first [] s =
    if not first && leb s.file_size s.offset then record s { finished = some true } else s
send_chunks first (r ∷ rs) s =
    let next = send_chunk r s in
    let rest = send_chunks false rs next in
    if not first && leb s.file_size s.offset
    then record s { finished = some true }
    else elim next.finished [ none ↦ rest | some b ↦ next ]

-- What was written is the header and the file up to the offset.
pub record IsUpTo (header bytes : List ℕ) (s : FileSender) : Type 0 where
  pub source : s.source ≡ bytes
  pub size : s.file_size ≡ length bytes
  pub written : s.written ≡ header ++ take s.offset bytes

send_chunk-IsUpTo :
    (header bytes : List ℕ) (r : Sendfile) (s : FileSender)
    → IsUpTo header bytes s
    → IsUpTo header bytes (send_chunk r s)
unfolding send_chunk
send_chunk-IsUpTo header bytes (moved n) s v = record {
  source = v.source;
  size = v.size;
  written =
      rw (v.source, v.written)
        (append_assoc header (take s.offset bytes) (take n (drop s.offset bytes))
          ∙ ap (λ xs. header ++ xs) (sym (take-drop s.offset n bytes)));
}
send_chunk-IsUpTo header bytes again s v =
    if_intro (IsUpTo header bytes) (ltb 3 (suc s.eagain_tries)) _ _
      (λ _. record { source = v.source; size = v.size; written = v.written })
      (λ _. record { source = v.source; size = v.size; written = v.written })
send_chunk-IsUpTo header bytes failed s v = record {
  source = v.source;
  size = v.size;
  written = v.written;
}

not_failed : some false ≢ some true
not_failed = cc

not_yet : (o : Option Bool) → o ≡ none → o ≢ some true
not_yet o h = cc

-- One call does not give the callback a success.
send_chunk-unfinished :
    (r : Sendfile) (s : FileSender) → s.finished ≡ none → (send_chunk r s).finished ≢ some true
unfolding send_chunk
send_chunk-unfinished (moved n) s h = not_yet s.finished h
send_chunk-unfinished again s h =
    if_intro (λ (t : FileSender). t.finished ≢ some true) (ltb 3 (suc s.eagain_tries)) _ _
      (λ _. not_failed) (λ _. not_yet s.finished h)
send_chunk-unfinished failed s h = not_failed

-- The whole file is written when the offset is at its end.
abbrev pub IsWhole : (header bytes : List ℕ) → FileSender → Type 0
IsWhole header bytes t =
    IsUpTo header bytes t × (t.finished ≡ some true → t.written ≡ header ++ bytes)

IsWhole-end :
    (header bytes : List ℕ) (first : Bool) (s t : FileSender)
    → IsUpTo header bytes s
    → (t.finished ≡ some true → t.written ≡ s.written)
    → IsUpTo header bytes t
    → (not first && leb s.file_size s.offset) ≡ true
    → IsWhole header bytes t
IsWhole-end header bytes first s t v w u h =
    let le : length bytes ≤ s.offset = ground (arith, v.size) in
    (u, λ f. w f ∙ v.written ∙ ap (λ xs. header ++ xs) (take_all s.offset bytes le))

-- -- x
pub send_chunks-IsWhole :
    (header bytes : List ℕ) (first : Bool) (rs : List Sendfile) (s : FileSender)
    → IsUpTo header bytes s
    → s.finished ≡ none
    → IsWhole header bytes (send_chunks first rs s)
unfolding send_chunks
send_chunks-IsWhole header bytes first [] s v n =
    if_intro (IsWhole header bytes) (not first && leb s.file_size s.offset) _ s
      (λ h.
        IsWhole-end header bytes first s _ v (λ _. refl)
          (record { source = v.source; size = v.size; written = v.written }) h)
      (λ _. (v, λ f. absurd (not_yet s.finished n f)))
send_chunks-IsWhole header bytes first (r ∷ rs) s v n =
    let u = send_chunk-IsUpTo header bytes r s v in
    if_intro (IsWhole header bytes) (not first && leb s.file_size s.offset) _ _
      (λ h.
        IsWhole-end header bytes first s _ v (λ _. refl)
          (record { source = v.source; size = v.size; written = v.written }) h)
      (λ _. elim (Option-cases (send_chunk r s).finished) [
        | inl e ↦ rw e (send_chunks-IsWhole header bytes false rs (send_chunk r s) u e)
        | inr (b, e) ↦ rw e (u, λ f. absurd (send_chunk-unfinished r s n f))
      ])

-- Each number is positive.
abbrev pub AllPositive : List ℕ → Type 0
AllPositive [] = Unit {0}
AllPositive (n ∷ ns) = (0 < n) × AllPositive ns

chunks-finish :
    (header bytes : List ℕ) (ns : List ℕ) (s : FileSender)
    → IsUpTo header bytes s
    → s.finished ≡ none
    → AllPositive ns
    → length bytes ≤ s.offset + length ns
    → (send_chunks false (map moved ns) s).finished ≡ some true
unfolding send_chunks send_chunk
chunks-finish header bytes [] s v n p h =
    let e : leb s.file_size s.offset ≡ true = ground (arith, v.size) in rw e refl
chunks-finish header bytes (m ∷ ns) s v n p h =
    let u = send_chunk-IsUpTo header bytes (moved m) s v in
    let step = send_chunk (moved m) s in
    elim (Bool-cases (leb s.file_size s.offset)) [
      | inl e ↦ rw e refl
      | inr e ↦
          let left : s.offset < length bytes = ground (arith, v.size) in
          let more : length bytes ≤ step.offset + length ns = omega (
            arith,
            h,
            left,
            p.0,
            ap length v.source,
            length-take m (drop s.offset s.source),
            length-drop s.offset s.source,
          ) in
          rw (e, n) (chunks-finish header bytes ns step u n p.1 more)
    ]

-- If each call of `sendfile` moves at least one byte, then after more calls than the file has
-- bytes the sender has called its callback with success, and what was written is the file's
-- header and the whole file.
pub send_chunks-finishes :
    (memory name bytes ns : List ℕ)
    → AllPositive ns
    → length bytes < length ns
    → let t = send_chunks true (map moved ns) (file_sender memory name bytes) in
      (t.finished ≡ some true) × (t.written ≡ file_header memory name ++ bytes)
unfolding send_chunks send_chunk file_sender
send_chunks-finishes memory name bytes [] p h = absurd (omega (arith, h))
send_chunks-finishes memory name bytes (n ∷ ns) p h =
    let s = file_sender memory name bytes in
    let header = file_header memory name in
    let v : IsUpTo header bytes s = record {
      source = refl;
      size = refl;
      written = sym (append-nil header);
    } in
    let done =
      chunks-finish header bytes ns (send_chunk (moved n) s)
        (send_chunk-IsUpTo header bytes (moved n) s v) refl p.1 (omega arith) in
    (done, (send_chunks-IsWhole header bytes true (map moved (n ∷ ns)) s v refl).1 done)
