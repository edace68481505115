-- ===== src/Ingest/Keys/Uri.antt =====
-- What the uri of a segment tells: `segment_uri` of src/ingest.rs.
use kevindb.Base.{
  ℕ, zero, suc, ◌+◌, ◌-◌, ◌*◌, ◌/◌, ◌%◌, ◌<◌, ◌≤◌, ◌≡◌, ◌≢◌, refl, sym, ap, ◌∙◌, arith, inl, inr,
  false, List, [], ◌∷◌, ◌++◌, ltb, ◌==◌, if◌then◌else◌, All, All-imp, Bool-cases, ltb→le, ltb→lt,
}
use kevindb.Base.Text.{Text, text}
use kevindb.Base.Int.{ℤ, pos, negsuc}
use kevindb.Base.Result.{Result, ok}
use kevindb.Ingest.{SpanRecord, PartitionKey, PersistFailure}
use kevindb.Ingest.Keys.{
  digits_from, decimal, print_int, escape_path_component, uri_of, segment_uri,
}
use kevindb.Ingest.Keys.Escape.{
  unescape, unescape-escape_path_component, escape_path_component-no_slash,
}

abbrev IsDigit : ℕ → Type 0
IsDigit c = (48 ≤ c) × (c ≤ 57)

digits_from-IsDigit :
    (fuel n : ℕ) (digits : Text) → All IsDigit digits → All IsDigit (digits_from fuel n digits)
digits_from-IsDigit zero n digits h = h
digits_from-IsDigit (suc fuel) n digits h = elim (Bool-cases (ltb n 10)) [
  | inl small ↦ let bound = ltb→lt n 10 small in rw small ((omega arith, omega arith), h)
  | inr large ↦
      rw large
        (digits_from-IsDigit fuel (n / 10) ((48 + n % 10) ∷ digits) ((omega arith, omega arith), h))
]

decimal-IsDigit : (n : ℕ) → All IsDigit (decimal n)
unfolding decimal
decimal-IsDigit n = digits_from-IsDigit (suc n) n [] tt

abbrev read : ℕ → Text → ℕ
read n [] = n
read n (c ∷ digits) = read (n * 10 + (c - 48)) digits

-- As many rounds as the number is large are enough.
read-digits_from :
    (fuel n : ℕ) (digits : Text) → n < fuel → read 0 (digits_from fuel n digits) ≡ read n digits
read-digits_from zero n digits h = absurd (omega arith)
read-digits_from (suc fuel) n digits h = elim (Bool-cases (ltb n 10)) [
  | inl small ↦ rw small (ap (λ m. read m digits) (omega arith))
  | inr large ↦
      let bound = ltb→le n 10 large in
      rw (large, read-digits_from fuel (n / 10) ((48 + n % 10) ∷ digits) (omega arith))
        (ap (λ m. read m digits) (omega arith))
]

read-decimal : (n : ℕ) → read 0 (decimal n) ≡ n
unfolding decimal
read-decimal n = read-digits_from (suc n) n [] (omega arith)

abbrev read_int : Text → ℤ
read_int [] = pos 0
read_int (c ∷ digits) = if c == 45 then negsuc (read 0 digits - 1) else pos (read 0 (c ∷ digits))

read_int-digits : (digits : Text) → All IsDigit digits → read_int digits ≡ pos (read 0 digits)
read_int-digits [] h = refl
read_int-digits (c ∷ digits) h = rw (not_minus c h.0) refl
  where
    not_minus : (c : ℕ) → IsDigit c → (c == 45) ≡ false
    not_minus c h = ground arith

read_int-print_int : (n : ℤ) → read_int (print_int n) ≡ n
unfolding print_int
read_int-print_int (pos n) =
    read_int-digits (decimal n) (decimal-IsDigit n) ∙ ap pos (read-decimal n)
read_int-print_int (negsuc n) = rw (read-decimal (n + 1)) (ap negsuc (omega arith))

print_int-no_slash : (n : ℤ) → All (λ c. c ≢ 47) (print_int n)
unfolding print_int
print_int-no_slash (pos n) =
    All-imp IsDigit (λ c. c ≢ 47) (decimal n) (λ c h e. omega (arith, h.0, e)) (decimal-IsDigit n)
print_int-no_slash (negsuc n) = (
  (λ e. omega (arith, e)),
  All-imp IsDigit (λ c. c ≢ 47) (decimal (n + 1)) (λ c h e. omega (arith, h.0, e))
      (decimal-IsDigit (n + 1)),
)

tails : {c d : ℕ} {s t : Text} → c ∷ s ≡ d ∷ t → s ≡ t
tails e = cc

heads : {c d : ℕ} {s t : Text} → c ∷ s ≡ d ∷ t → c ≡ d
heads e = cc

-- What comes before the first separator is determined.
split-separator :
    (c : ℕ) (xs ys before after : Text)
    → All (λ d. d ≢ c) xs
    → All (λ d. d ≢ c) ys
    → xs ++ (c ∷ before) ≡ ys ++ (c ∷ after)
    → (xs ≡ ys) × (before ≡ after)
split-separator c [] [] before after h k e = (refl, tails e)
split-separator c [] (y ∷ ys) before after h k e = absurd (k.0 (sym (heads e)))
split-separator c (x ∷ xs) [] before after h k e = absurd (h.0 (heads e))
split-separator c (x ∷ xs) (y ∷ ys) before after h k e =
    let (same, rest) = split-separator c xs ys before after h.1 k.1 (tails e) in
    ((λ i. heads e i ∷ same i), rest)

cancel : (prefix s t : Text) → prefix ++ s ≡ prefix ++ t → s ≡ t
cancel [] s t e = e
cancel (c ∷ prefix) s t e = cancel prefix s t (tails e)

uri_of_unique :
    (p q : PartitionKey) (now sequence now' sequence' : ℕ) (trace_id trace_id' : Text)
    → All (λ byte. byte < 256) p.project_name
    → All (λ byte. byte < 256) q.project_name
    → uri_of p now sequence trace_id ≡ uri_of q now' sequence' trace_id'
    → (p ≡ q) × (now ≡ now') × (sequence ≡ sequence')
uri_of_unique p q now sequence now' sequence' trace_id trace_id' hp hq e =
    let a =
      split-separator 47 (escape_path_component p.project_name)
        (escape_path_component q.project_name) _ _
        (escape_path_component-no_slash p.project_name hp)
        (escape_path_component-no_slash q.project_name hq) (cancel (text "projects/") _ _ e) in
    let b =
      split-separator 47 (print_int p.time_bucket_start_unix_nano)
        (print_int q.time_bucket_start_unix_nano) _ _
        (print_int-no_slash p.time_bucket_start_unix_nano)
        (print_int-no_slash q.time_bucket_start_unix_nano)
        (cancel (text "time-buckets/") _ _ a.1) in
    let c =
      split-separator 45 (decimal now) (decimal now') _ _ (digits_only now) (digits_only now')
        (cancel (text "trace-segments/") _ _ b.1) in
    let d =
      split-separator 45 (decimal sequence) (decimal sequence') _ _ (digits_only sequence)
        (digits_only sequence') c.1 in
    let project : p.project_name ≡ q.project_name =
      sym (unescape-escape_path_component p.project_name hp)
      ∙ ap unescape a.0
      ∙ unescape-escape_path_component q.project_name hq in
    let bucket : p.time_bucket_start_unix_nano ≡ q.time_bucket_start_unix_nano =
      sym (read_int-print_int p.time_bucket_start_unix_nano)
      ∙ ap read_int b.0
      ∙ read_int-print_int q.time_bucket_start_unix_nano in
    (
      (λ i. record { project_name = project i; time_bucket_start_unix_nano = bucket i }),
      sym (read-decimal now) ∙ ap (read 0) c.0 ∙ read-decimal now',
      sym (read-decimal sequence) ∙ ap (read 0) d.0 ∙ read-decimal sequence',
    )
  where
    digits_only : (n : ℕ) → All (λ d. d ≢ 45) (decimal n)
    digits_only n =
        All-imp IsDigit (λ c. c ≢ 45) (decimal n) (λ c h e. omega (arith, h.0, e))
          (decimal-IsDigit n)

ok_inj : {u v : Text} → ◌≡◌ {A = Result PersistFailure Text} (ok u) (ok v) → u ≡ v
ok_inj e = cc

-- Two segments have one uri only when partition, time and sequence number agree, whatever their
-- traces are called: segments written under different sequence numbers never overwrite each other.
-- The project names are bytes.
pub segment_uri_unique :
    (p q : PartitionKey) (records records' : List SpanRecord) (now sequence now' sequence' : ℕ)
    (uri : Text)
    → All (λ byte. byte < 256) p.project_name
    → All (λ byte. byte < 256) q.project_name
    → segment_uri p records now sequence ≡ ok uri
    → segment_uri q records' now' sequence' ≡ ok uri
    → (p ≡ q) × (now ≡ now') × (sequence ≡ sequence')
unfolding segment_uri
segment_uri_unique p q [] records' now sequence now' sequence' uri hp hq e f = cc
segment_uri_unique p q (r ∷ records) [] now sequence now' sequence' uri hp hq e f = cc
segment_uri_unique p q (r ∷ records) (s ∷ records') now sequence now' sequence' uri hp hq e f =
    uri_of_unique p q now sequence now' sequence' r.trace_id s.trace_id hp hq (ok_inj (e ∙ sym f))
