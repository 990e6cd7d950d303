-- ===== src/ProcMetricCollector/Cpu/Rows.antt =====
-- `parse_cpu_counters` of proc_metric_collector.cpp on the CPU row as the kernel writes it.
use pulse_mesh.Base.{
  ℕ, zero, suc, ◌+◌, ◌-◌, ◌<◌, ◌≤◌, ◌^◌, ◌≡◌, refl, ap, ◌∙◌, false, Text, text_eq, List, [], ◌∷◌,
  ◌++◌, map, some, codes, arith, ltb, length, All, ok,
}
use pulse_mesh.Text.Digits.{to_string, starts_digit}
use pulse_mesh.Text.Stream.{failed, max_u64, read_u64}
use pulse_mesh.Text.Stream.Reads.{blanks, read_u64-to_string, read_u64-overflow, read_word-append}
use pulse_mesh.ProcMetricCollector.Source.{SourceSnapshot}
use pulse_mesh.ProcMetricCollector.Cpu.{
  CpuCounters, zero_cells, read_fields, cell, sum_fields, counters_of, parse_cpu_counters,
}

-- Fields, each with the number of spaces before it but one, and what follows them.
abbrev pub Fields : Type 0
Fields = List (ℕ × ℕ)

abbrev pub row_text : Fields → Text → Text
row_text [] rest = rest
row_text ((gap, v) ∷ fs) rest = blanks (suc gap) ++ (to_string v ++ row_text fs rest)

abbrev pub values : Fields → List ℕ
values = map λ f. f.1

abbrev pub sum : List ℕ → ℕ
sum [] = 0
sum (v ∷ vs) = v + sum vs

-- The fields fill `n` cells, or the stream fails behind them and writes `x`.
abbrev pub Ends : ℕ → Fields → Text → ℕ → Type 0
Ends zero [] rest x = Unit
Ends zero (f ∷ fs) rest x = ⊥
Ends (suc n) [] rest x = read_u64 rest ≡ failed x
Ends (suc n) (f ∷ fs) rest x = Ends n fs rest x

abbrev others : ℕ → Fields → ℕ → List ℕ
others zero fs x = []
others (suc n) [] x = x ∷ zero_cells n
others (suc n) (f ∷ fs) x = others n fs x

abbrev InRange : ℕ × ℕ → Type 0
InRange f = f.1 < 2 ^ 64

starts_digit-row_text :
    (fs : Fields) (rest : Text)
    → starts_digit rest ≡ false
    → starts_digit (row_text fs rest) ≡ false
starts_digit-row_text [] rest h = h
starts_digit-row_text ((gap, v) ∷ fs) rest h = refl

read_fields-row_text :
    (n : ℕ) (fs : Fields) (rest : Text) (x : ℕ)
    → All InRange fs
    → starts_digit rest ≡ false
    → Ends n fs rest x
    → read_fields n (row_text fs rest) ≡ (values fs, others n fs x)
unfolding read_fields
read_fields-row_text zero [] rest x a h e = refl
read_fields-row_text zero (f ∷ fs) rest x a h e = absurd e
read_fields-row_text (suc n) [] rest x a h e = rw (e, read_fields) refl
read_fields-row_text (suc n) ((gap, v) ∷ fs) rest x a h e =
    rw
      (
        read_u64-to_string (suc gap) v (row_text fs rest) a.0 (starts_digit-row_text fs rest h),
        read_fields,
        read_fields-row_text n fs rest x a.1 h e,
      )
      refl

sum_fields_lem :
    (total : ℕ) (vs : List ℕ)
    → total + sum vs < 2 ^ 64
    → sum_fields total vs ≡ some (total + sum vs)
unfolding sum_fields
sum_fields_lem total [] h = ap some (omega arith)
sum_fields_lem total (v ∷ vs) h =
    let e : ltb (max_u64 - total) v ≡ false = ground arith in
    rw e (sum_fields_lem (total + v) vs (omega (arith, h)) ∙ ap some (omega arith))

sum-InRange : (fs : Fields) → sum (values fs) < 2 ^ 64 → All InRange fs
sum-InRange [] h = tt
sum-InRange ((gap, v) ∷ fs) h = (omega (arith, h), sum-InRange fs (omega (arith, h)))

-- The row's first four fields, and the others.
pub record Row : Type 0 where
  pub user : ℕ × ℕ
  pub nice : ℕ × ℕ
  pub system : ℕ × ℕ
  pub idle : ℕ × ℕ
  pub more : Fields

abbrev pub fields_of : Row → Fields
fields_of r = r.user ∷ r.nice ∷ r.system ∷ r.idle ∷ r.more

abbrev pub row_contents : Row → Text → Text
row_contents r rest = codes "cpu" ++ row_text (fields_of r) rest

abbrev pub snapshot : Text → Text → SourceSnapshot
snapshot source contents = record { contents = contents; source = source }

-- The fifth cell.
abbrev fifth : Fields → ℕ → ℕ
fifth [] x = x
fifth ((gap, v) ∷ fs) x = v

cell-others : (more : Fields) (x : ℕ) → cell (values more ++ others 4 more x) 0 ≡ fifth more x
cell-others [] x = refl
cell-others ((gap, v) ∷ fs) x = refl

counters_of-fields :
    (s : SourceSnapshot) (r : Row) (x : ℕ)
    → sum (values (fields_of r)) < 2 ^ 64
    → r.idle.1 + fifth r.more x < 2 ^ 64
    → counters_of s (values (fields_of r), others 8 (fields_of r) x)
      ≡ ok (record { total = sum (values (fields_of r)); idle = r.idle.1 + fifth r.more x })
unfolding counters_of
counters_of-fields s r x h i =
    let many : ltb (length (values (fields_of r))) 4 ≡ false = ground arith in
    let fits : ltb (max_u64 - r.idle.1) (fifth r.more x) ≡ false = ground arith in
    rw
      (
        many,
        sum_fields_lem 0 (values (fields_of r)) (omega (arith, h)),
        counters_of,
        cell-others r.more x,
        fits,
      )
      (ap (λ n. ok (record { total = n; idle = r.idle.1 + fifth r.more x })) (omega arith))

parse_cpu_counters-fields :
    (source : Text) (r : Row) (rest : Text) (x : ℕ)
    → sum (values (fields_of r)) < 2 ^ 64
    → starts_digit rest ≡ false
    → Ends 4 r.more rest x
    → r.idle.1 + fifth r.more x < 2 ^ 64
    → parse_cpu_counters (snapshot source (row_contents r rest))
      ≡ ok (record { total = sum (values (fields_of r)); idle = r.idle.1 + fifth r.more x })
unfolding parse_cpu_counters text_eq
parse_cpu_counters-fields source r rest x h s e i =
    rw
      (read_word-append b'c' (codes "pu") (row_text (fields_of r) rest) (refl, (refl, (refl, tt)))
        refl)
      (rw (read_fields-row_text 8 (fields_of r) rest x (sum-InRange (fields_of r) h) s e)
        (counters_of-fields (snapshot source (row_contents r rest)) r x h i))

-- A row with four to eight fields, each behind one or more spaces and all together in the range of
-- `uint64_t`, is read as their sum and the sum of idle time and I/O wait, which is 0 where it is not
-- given. Behind eight fields anything may follow that does not go on with a digit, and behind fewer
-- something that is no number.
pub parse_cpu_counters-row :
    (source : Text) (r : Row) (rest : Text)
    → sum (values (fields_of r)) < 2 ^ 64
    → starts_digit rest ≡ false
    → Ends 4 r.more rest 0
    → parse_cpu_counters (snapshot source (row_contents r rest))
      ≡ ok (record { total = sum (values (fields_of r)); idle = r.idle.1 + fifth r.more 0 })
parse_cpu_counters-row source r rest h s e =
    parse_cpu_counters-fields source r rest 0 h s e (fifth-within r.idle.1 r.more h)
  where
    fifth-within :
        (i : ℕ) (more : Fields)
        → r.user.1 + (r.nice.1 + (r.system.1 + (i + sum (values more)))) < 2 ^ 64
        → i + fifth more 0 < 2 ^ 64
    fifth-within i [] k = omega (arith, k)
    fifth-within i ((gap, v) ∷ fs) k = omega (arith, k)

-- A row whose idle time is 0 and whose I/O wait is 2^64 or more is accepted, where the first three
-- fields add up to less than 2^64 - 1 and no digit follows the I/O wait: the total is then the sum of
-- the three, and the idle time is 2^64 - 1, greater than the total. There is one space before each of
-- the first four fields, and one or more before the I/O wait.
pub parse_cpu_counters-overflow :
    (source : Text) (user nice system gap wait : ℕ) (rest : Text)
    → user + (nice + system) < 2 ^ 64 - 1
    → 2 ^ 64 ≤ wait
    → starts_digit rest ≡ false
    → (c : CpuCounters) × (parse_cpu_counters (
          snapshot source (
            row_contents
              (record {
                user = (0, user);
                nice = (0, nice);
                system = (0, system);
                idle = (0, 0);
                more = [];
              })
              (blanks (suc gap) ++ (to_string wait ++ rest))))
        ≡ ok c)
      × (c.total ≡ user + (nice + system))
      × (c.idle ≡ 2 ^ 64 - 1)
      × (c.total < c.idle)
parse_cpu_counters-overflow source user nice system gap wait rest h w s = (
  _,
  parse_cpu_counters-fields source
      (record {
        user = (0, user);
        nice = (0, nice);
        system = (0, system);
        idle = (0, 0);
        more = [];
      })
      (blanks (suc gap) ++ (to_string wait ++ rest)) max_u64 (omega (arith, h)) refl
      (read_u64-overflow (suc gap) wait rest w s) (omega arith),
  omega arith,
  omega arith,
  omega (arith, h),
)
