-- ===== src/Container/Stats.antt =====
-- agent/commands/container.py: `stats` and `metrics_samples`. The shares are kept as fractions and
-- the sizes in bytes, as they are before they are rounded.
use relay_agent.Base.{
  Bool, List, Option, String, [], false, if◌then◌else◌, leb, none, not, some, str_eq, suc, zero, ℕ,
  ◌*◌, ◌+◌, ◌-◌, ◌∷◌,
}
use relay_agent.Base.Int.{negsuc, pos, ℤ}

-- What the daemon gives, with none where a key is missing that has a default; of `percpu_usage`
-- the length.
pub record RawStats : Type 0 where
  pub total_usage : ℕ
  pub total_usage_before : ℕ
  pub system_usage : Option ℕ
  pub system_usage_before : Option ℕ
  pub online_cpus : Option ℕ
  pub percpu_usage : Option ℕ
  pub mem_usage : Option ℕ
  pub mem_cache : Option ℕ
  pub mem_limit : Option ℕ
  pub networks : List (Option ℕ × Option ℕ)
  pub io_bytes : List (Option String × Option ℕ)

-- A share is a fraction, none for 0.0.
pub record Stats : Type 0 where
  pub cpu_percent : Option (ℤ × ℕ)
  pub mem_usage : ℤ
  pub mem_limit : ℕ
  pub mem_percent : Option (ℤ × ℕ)
  pub net_rx : ℕ
  pub net_tx : ℕ
  pub blk_read : ℕ
  pub blk_write : ℕ

abbrev pub get_or : ℕ → Option ℕ → ℕ
get_or n none = n
get_or n (some m) = m

abbrev pub minus : ℕ → ℕ → ℤ
minus a b = if leb b a then pos (a - b) else negsuc (b - a - 1)

abbrev pub times : ℕ → ℤ → ℤ
times k (pos n) = pos (k * n)
times k (negsuc n) = minus 0 (k * suc n)

-- `online_cpus or len(percpu_usage or [1])`
abbrev pub or_length : ℕ → Option ℕ → ℕ
or_length (suc n) percpu = suc n
or_length zero (some (suc n)) = suc n
or_length zero _ = 1

abbrev pub num_cpus : RawStats → ℕ
num_cpus r = or_length (get_or 0 r.online_cpus) r.percpu_usage

unfoldable pub share : ℤ → ℤ → Option (ℤ × ℕ)
share part (pos (suc whole)) = some (part, suc whole)
share part _ = none

abbrev pub cpu_delta : RawStats → ℤ
cpu_delta r = minus r.total_usage r.total_usage_before

abbrev pub sys_delta : RawStats → ℤ
sys_delta r = minus (get_or 0 r.system_usage) (get_or 0 r.system_usage_before)

unfoldable pub received : List (Option ℕ × Option ℕ) → ℕ
received [] = 0
received ((rx, tx) ∷ ns) = get_or 0 rx + received ns

unfoldable pub transmitted : List (Option ℕ × Option ℕ) → ℕ
transmitted [] = 0
transmitted ((rx, tx) ∷ ns) = get_or 0 tx + transmitted ns

abbrev pub is_op : String → Option String → Bool
is_op op none = false
is_op op (some o) = str_eq o op

unfoldable pub io_sum : String → List (Option String × Option ℕ) → ℕ
io_sum op [] = 0
io_sum op ((o, n) ∷ es) = let rest = io_sum op es in if is_op op o then get_or 0 n + rest else rest

unfoldable pub stats : RawStats → Stats
unfolding share received transmitted io_sum
stats r = record {
  cpu_percent = share (times (num_cpus r * 100) (cpu_delta r)) (sys_delta r);
  mem_usage = minus (get_or 0 r.mem_usage) (get_or 0 r.mem_cache);
  mem_limit = get_or 1 r.mem_limit;
  mem_percent =
      share (times 100 (minus (get_or 0 r.mem_usage) (get_or 0 r.mem_cache)))
        (pos (get_or 1 r.mem_limit));
  net_rx = received r.networks;
  net_tx = transmitted r.networks;
  blk_read = io_sum "read" r.io_bytes;
  blk_write = io_sum "write" r.io_bytes;
}

-- A running container with the label `saas.instance`: its labels, and what its stats are, none
-- where that call fails.
pub record Running : Type 0 where
  pub role : Option String
  pub slug : Option String
  pub raw : Option RawStats

abbrev pub Sample : Type 0
Sample = String × Stats

-- A label that is there and not empty
abbrev pub has_role : Option String → Bool
has_role none = false
has_role (some role) = not (str_eq role "")

abbrev pub with_sample : Option String → Stats → Option (List Sample) → Option (List Sample)
with_sample (some slug) st (some rest) = some ((slug, st) ∷ rest)
with_sample _ st _ = none

abbrev pub after_stats :
    Option RawStats → Option String → Option (List Sample) → Option (List Sample)
after_stats none slug rest = rest
after_stats (some raw) slug rest = with_sample slug (stats raw) rest

-- `metrics_samples`, with none where it raises
unfoldable pub metrics_samples : List Running → Option (List Sample)
unfolding stats
metrics_samples [] = some []
metrics_samples (c ∷ cs) =
    let rest = metrics_samples cs in if has_role c.role then rest else after_stats c.raw c.slug rest
