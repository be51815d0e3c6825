-- ===== src/Files/Transfer.antt =====
-- File/File.cpp: what is written and read, however the kernel answers.
use ioloop.Prelude.{
  take-append-drop, ℕ, zero, suc, ◌+◌, ◌-◌, ◌≤◌, ◌<◌, ◌≡◌, refl, sym, ap, ap₂, ◌∙◌, subst, min,
  List, [], ◌∷◌, ◌++◌, append-nil, append_assoc, Result, ok, Bool, true, false, ltb, ◌==◌,
  if◌then◌else◌, length, take, drop, replicate, arith, Bool-cases, inl, inr, length-append,
  length-take, length-drop, take-append_exact, drop-append_exact, take-append_add, drop-drop,
}
use ioloop.Files.{
  Answer, transfer, interrupted, would_block, failed, put_at, put, write_all_from, write_all,
  read_all_from, read_all,
}

-- The file when the first `k` bytes of `buf` are written.
abbrev pub after_write : Bool → ℕ → List ℕ → List ℕ → List ℕ
after_write appends k buf file = if appends then file ++ take k buf else take k buf ++ drop k file

take_add :
    (m n : ℕ) (xs : List ℕ) → m ≤ length xs → take (m + n) xs ≡ take m xs ++ take n (drop m xs)
take_add m n xs h =
    ap (take (m + n)) (sym (take-append-drop m xs))
    ∙ take-append_add (m + n) n (take m xs) (drop m xs) (omega (arith, length-take m xs))

drop_add : (m n : ℕ) (xs ys : List ℕ) → m ≡ length xs → drop (m + n) (xs ++ ys) ≡ drop n ys
drop_add m n xs ys e = sym (drop-drop n m (xs ++ ys)) ∙ ap (drop n) (drop-append_exact m xs ys e)

put_at-append :
    (w : ℕ) (bytes done rest : List ℕ)
    → w ≡ length done
    → put_at w bytes (done ++ rest) ≡ done ++ (bytes ++ drop (length bytes) rest)
put_at-append w bytes done rest e =
    ap₂ (λ l r. (l ++ replicate (w - length (done ++ rest)) 0) ++ (bytes ++ r))
      (take-append_exact w done rest e) (drop_add w (length bytes) done rest e)
    ∙ ap (λ k. (done ++ replicate k 0) ++ (bytes ++ drop (length bytes) rest)) no_gap
    ∙ ap (λ l. l ++ (bytes ++ drop (length bytes) rest)) (append-nil done)
  where
    no_gap : w - length (done ++ rest) ≡ 0
    no_gap = omega (arith, e, length-append done rest)

put-after_write :
    (appends : Bool) (w n : ℕ) (buf file : List ℕ)
    → w + n ≤ length buf
    → put appends w (take n (drop w buf)) (after_write appends w buf file)
      ≡ after_write appends (w + n) buf file
put-after_write true w n buf file h =
    append_assoc file (take w buf) (take n (drop w buf))
    ∙ ap (λ l. file ++ l) (sym (take_add w n buf (omega arith)))
put-after_write false w n buf file h =
    put_at-append w (take n (drop w buf)) (take w buf) (drop w file)
      (omega (arith, length-take w buf))
    ∙ sym (
        append_assoc (take w buf) (take n (drop w buf))
          (drop (length (take n (drop w buf))) (drop w file)))
    ∙ ap₂ ◌++◌ (sym (take_add w n buf (omega arith)))
        (drop-drop (length (take n (drop w buf))) w file ∙ ap (λ k. drop k file) written)
  where
    written : w + length (take n (drop w buf)) ≡ w + n
    written = omega (arith, length-take n (drop w buf), length-drop w buf)

-- How many answers bring something.
abbrev pub gains : List Answer → ℕ
gains [] = 0
gains (transfer zero ∷ rest) = gains rest
gains (transfer (suc k) ∷ rest) = suc (gains rest)
gains (_ ∷ rest) = gains rest

-- The kernel neither fails nor says that nothing can be moved.
abbrev pub IsWilling : List Answer → Type 0
IsWilling [] = Unit {0}
IsWilling (transfer zero ∷ rest) = ⊥
IsWilling (transfer (suc k) ∷ rest) = IsWilling rest
IsWilling (interrupted ∷ rest) = IsWilling rest
IsWilling (would_block ∷ rest) = ⊥
IsWilling (failed ∷ rest) = ⊥

-- A prefix of the buffer is written.
record Written (appends : Bool) (buf file : List ℕ) (k : ℕ) (file' : List ℕ) : Type 0 where
  within : k ≤ length buf
  prefix : file' ≡ after_write appends k buf file

stops :
    (appends : Bool) (buf file : List ℕ) (w k : ℕ) (now file' : List ℕ)
    → w ≤ length buf
    → now ≡ after_write appends w buf file
    → ◌≡◌ {A = Result (ℕ × List ℕ)} (ok (w, now)) (ok (k, file'))
    → Written appends buf file k file'
stops appends buf file w k now file' h e r =
    let same_count : w ≡ k = ground (arith, r) in
    let same_file : now ≡ file' = ground (arith, r) in
    record {
      within = omega (arith, h, same_count);
      prefix = sym same_file ∙ e ∙ ap (λ n. after_write appends n buf file) same_count;
    }

Written-from :
    (answers : List Answer) (appends : Bool) (buf : List ℕ) (w : ℕ) (file : List ℕ) (k : ℕ)
    (now file' : List ℕ)
    → w ≤ length buf
    → now ≡ after_write appends w buf file
    → write_all_from appends buf w answers now ≡ ok (k, file')
    → Written appends buf file k file'
unfolding write_all_from
Written-from [] appends buf w file k now file' h e r =
    stops appends buf file w k now file' h e (ground (arith, r))
Written-from (interrupted ∷ rest) appends buf w file k now file' h e r =
    elim (Bool-cases (ltb w (length buf))) [
      | inl p ↦ Written-from rest appends buf w file k now file' h e (ground (arith, r, p))
      | inr p ↦ stops appends buf file w k now file' h e (ground (arith, r, p))
    ]
Written-from (would_block ∷ rest) appends buf w file k now file' h e r =
    stops appends buf file w k now file' h e (ground (arith, r))
Written-from (failed ∷ rest) appends buf w file k now file' h e r =
    stops appends buf file w k now file' h e (ground (arith, r))
Written-from (transfer c ∷ rest) appends buf w file k now file' h e r =
    elim (Bool-cases (ltb w (length buf))) [
      | inl p ↦
          let n = min c (length buf - w) in
          elim (Bool-cases (n == 0)) [
            | inl z ↦ stops appends buf file w k now file' h e (ground (arith, r, p, z))
            | inr z ↦
                Written-from rest appends buf (w + n) file k
                  (put appends w (take n (drop w buf)) now) file' (omega (arith, h))
                  (ap (put appends w (take n (drop w buf))) e
                    ∙ put-after_write appends w n buf file (omega (arith, h)))
                  (ground (arith, r, p, z))
          ]
      | inr p ↦ stops appends buf file w k now file' h e (ground (arith, r, p))
    ]

completes :
    (answers : List Answer) (appends : Bool) (buf : List ℕ) (w : ℕ) (now : List ℕ)
    → w ≤ length buf
    → IsWilling answers
    → length buf ≤ w + gains answers
    → (file' : List ℕ) × (write_all_from appends buf w answers now ≡ ok (length buf, file'))
unfolding write_all_from
completes [] appends buf w now h a g = (now, ground (arith, h, g))
completes (interrupted ∷ rest) appends buf w now h a g = elim (Bool-cases (ltb w (length buf))) [
  | inl p ↦ let (file', r) = completes rest appends buf w now h a g in (file', ground (arith, r, p))
  | inr p ↦ (now, ground (arith, h, p))
]
completes (would_block ∷ rest) appends buf w now h a g = absurd a
completes (failed ∷ rest) appends buf w now h a g = absurd a
completes (transfer zero ∷ rest) appends buf w now h a g = absurd a
completes (transfer (suc c) ∷ rest) appends buf w now h a g =
    elim (Bool-cases (ltb w (length buf))) [
      | inl p ↦
          let n = min (suc c) (length buf - w) in
          let more : 0 < n = ground (arith, p) in
          let (file', r) =
            completes rest appends buf (w + n) (put appends w (take n (drop w buf)) now)
              (omega (arith, h)) a (omega (arith, g, more)) in
          (file', ground (arith, r, p, more))
      | inr p ↦ (now, ground (arith, h, p))
    ]

-- `writeAll` of a file that is open with APPEND leaves the file with a prefix of the buffer behind
-- it, and of any other with its first bytes replaced by a prefix, as long as the count that it
-- returns, however the kernel cuts the calls and interrupts them. The file's offset is not used.
pub write_all-Written :
    (appends : Bool) (buf : List ℕ) (answers : List Answer) (file : List ℕ) (k : ℕ) (file' : List ℕ)
    → write_all appends buf answers file ≡ ok (k, file')
    → (k ≤ length buf) × (file' ≡ after_write appends k buf file)
unfolding write_all
write_all-Written appends buf answers file k file' r =
    let v = Written-from answers appends buf 0 file k file file' (omega arith) (start appends) r in
    (v.within, v.prefix)
  where
    start : (b : Bool) → file ≡ after_write b 0 buf file
    start true = sym (append-nil file)
    start false = refl

-- When the kernel moves something often enough, and else only interrupts, `writeAll` writes the
-- whole buffer.
pub write_all-whole :
    (appends : Bool) (buf : List ℕ) (answers : List Answer) (file : List ℕ)
    → IsWilling answers
    → length buf ≤ gains answers
    → write_all appends buf answers file
      ≡ ok (length buf, after_write appends (length buf) buf file)
unfolding write_all
write_all-whole appends buf answers file a g =
    let (file', r) = completes answers appends buf 0 file (omega arith) a (omega (arith, g)) in
    let (_, e) = write_all-Written appends buf answers file (length buf) file' r in
    r ∙ ap (λ f. ok (length buf, f)) e

read_ends :
    (count : ℕ) (file xs ys : List ℕ)
    → length xs ≤ count
    → xs ≡ take (length xs) file
    → ◌≡◌ {A = Result (List ℕ)} (ok xs) (ok ys)
    → (length ys ≤ count) × (ys ≡ take (length ys) file)
read_ends count file xs ys h e r =
    let same : xs ≡ ys = ground (arith, r) in
    subst (λ l. (length l ≤ count) × (l ≡ take (length l) file)) same (h, e)

read_from :
    (answers : List Answer) (count : ℕ) (file xs ys : List ℕ)
    → length xs ≤ count
    → xs ≡ take (length xs) file
    → read_all_from count xs answers file ≡ ok ys
    → (length ys ≤ count) × (ys ≡ take (length ys) file)
unfolding read_all_from
read_from [] count file xs ys h e r = read_ends count file xs ys h e (ground (arith, r))
read_from (interrupted ∷ rest) count file xs ys h e r = elim (Bool-cases (ltb (length xs) count)) [
  | inl p ↦ read_from rest count file xs ys h e (ground (arith, r, p))
  | inr p ↦ read_ends count file xs ys h e (ground (arith, r, p))
]
read_from (would_block ∷ rest) count file xs ys h e r =
    read_ends count file xs ys h e (ground (arith, r))
read_from (failed ∷ rest) count file xs ys h e r =
    read_ends count file xs ys h e (ground (arith, r))
read_from (transfer c ∷ rest) count file xs ys h e r = elim (Bool-cases (ltb (length xs) count)) [
  | inl p ↦
      let n = min c (min (count - length xs) (length file - length xs)) in
      elim (Bool-cases (n == 0)) [
        | inl z ↦ read_ends count file xs ys h e (ground (arith, r, p, z))
        | inr z ↦
            let more = take n (drop (length xs) file) in
            let known : length xs ≤ length file =
              omega (arith, ap length e, length-take (length xs) file) in
            let size : length (xs ++ more) ≡ length xs + n = omega (
              arith,
              length-append xs more,
              length-take n (drop (length xs) file),
              length-drop (length xs) file,
              known,
            ) in
            let grown : xs ++ more ≡ take (length (xs ++ more)) file =
              ap (λ l. l ++ more) e
              ∙ sym (take_add (length xs) n file known)
              ∙ ap (λ k. take k file) (sym size) in
            read_from rest count file (xs ++ more) ys (omega (arith, size, h)) grown
              (ground (arith, r, p, z))
      ]
  | inr p ↦ read_ends count file xs ys h e (ground (arith, r, p))
]

-- What `readAll` returns is the beginning of the file, and no more than was asked for.
pub read_all_lem :
    (count : ℕ) (answers : List Answer) (file bytes : List ℕ)
    → read_all count answers file ≡ ok bytes
    → (length bytes ≤ count) × (bytes ≡ take (length bytes) file)
unfolding read_all
read_all_lem count answers file bytes r = read_from answers count file [] bytes (omega arith) refl r
