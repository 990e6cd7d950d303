-- ===== src/ProcMetricCollector/Memory/Files.antt =====
-- `parse_memory_metrics` of proc_metric_collector.cpp on a file of lines.
use pulse_mesh.Base.{
  ℕ, suc, ◌*◌, ◌<◌, ◌≤◌, ◌^◌, ◌≡◌, false, ℤ, Text, List, [], ◌∷◌, ◌++◌, Option, some, codes, ◌==◌,
  All,
}
use pulse_mesh.Base.Double.{Double}
use pulse_mesh.Wire.{Metric}
use pulse_mesh.Text.Digits.{to_string}
use pulse_mesh.Text.Stream.{read_word}
use pulse_mesh.Text.Stream.Reads.{blanks}
use pulse_mesh.ProcMetricCollector.Memory.{
  bytes_per_kilobyte, MemoryFields, total_key, available_key, is_wanted_key, memory_metrics,
}

-- The two lines that matter, with the number of spaces before the number but one, and any others.
pub data Line : Type 0 where
  total : ℕ → ℕ → Line
  available : ℕ → ℕ → Line
  other : Text → Line

abbrev value_text : ℕ → ℕ → Text
value_text gap kb = blanks (suc gap) ++ (to_string kb ++ codes " kB")

abbrev pub line_text : Line → Text
line_text (total gap kb) = total_key ++ value_text gap kb
line_text (available gap kb) = available_key ++ value_text gap kb
line_text (other t) = t

abbrev NotNewline : ℕ → Type 0
NotNewline c = (c == b'\n') ≡ false

-- The numbers are in range, and another line is one line that does not begin with one of the keys.
abbrev pub IsLine : Line → Type 0
IsLine (total gap kb) = kb < 2 ^ 64
IsLine (available gap kb) = kb < 2 ^ 64
IsLine (other t) = All NotNewline t × (is_wanted_key (read_word t).0 ≡ false)

abbrev pub file_text : List Line → Text
file_text [] = []
file_text (l ∷ ls) = line_text l ++ (b'\n' ∷ file_text ls)

-- The last value that the lines give, or else the one from before.
abbrev pub total_of : List Line → Option ℕ → Option ℕ
total_of [] o = o
total_of (total gap kb ∷ ls) o = total_of ls (some kb)
total_of (available gap kb ∷ ls) o = total_of ls o
total_of (other t ∷ ls) o = total_of ls o

abbrev pub available_of : List Line → Option ℕ → Option ℕ
available_of [] o = o
available_of (total gap kb ∷ ls) o = available_of ls o
available_of (available gap kb ∷ ls) o = available_of ls (some kb)
available_of (other t ∷ ls) o = available_of ls o

abbrev after_line : Line → MemoryFields → MemoryFields
after_line (total gap kb) m = record m { total_kb = some kb }
after_line (available gap kb) m = record m { available_kb = some kb }
after_line (other t) m = m

abbrev memory_after : List Line → MemoryFields → MemoryFields
memory_after ls m = record {
  total_kb = total_of ls m.total_kb;
  available_kb = available_of ls m.available_kb;
}

-- Both values are there and fit together: some memory, of which no more is available than there is,
-- and its bytes are in the range of `uint64_t`.
abbrev pub Consistent : Option ℕ → Option ℕ → Type 0
Consistent (some t) (some a) = (0 < t) × (a ≤ t) × (t * bytes_per_kilobyte < 2 ^ 64)
Consistent _ _ = ⊥

module _ {ℓ} {F : Type ℓ} ⦃d : Double F⦄ where
  abbrev pub metrics_of : ℤ → Option ℕ → Option ℕ → List (Metric F)
  metrics_of time (some t) (some a) =
      memory_metrics (t * bytes_per_kilobyte) (a * bytes_per_kilobyte) time
  metrics_of time _ _ = []
