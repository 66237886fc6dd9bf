-- ===== src/Fs/Disk.antt =====
-- What the file commands ask of the operating system, and how a command ends. The system is no
-- code of the repository: its calls are the fields of a record.
use relay_agent.Base.{Bool, List, Text, ℕ}
use relay_agent.Fs.Paths.{Made, OpenResult}

-- How a command ends, with an exception for all but the first: a path or an argument that is
-- refused, a path that goes through a link, and an OSError.
pub data Outcome {ℓ} (A : Type ℓ) : Type ℓ where
  done : A → Outcome A
  bad_value symlink os_failed : Outcome A

abbrev pub Io {ℓ} : Type 0 → Type ℓ → Type ℓ
Io S A = S → Outcome A × S

abbrev pub Done : Type 0
Done = Unit

module _ {S : Type 0} where
  abbrev pub pure {ℓ} : {A : Type ℓ} → A → Io S A
  pure a s = (done a, s)

  abbrev pub raise {ℓ} : {A : Type ℓ} → Outcome A → Io S A
  raise e s = (e, s)

  abbrev pub continue {ℓ κ} : {A : Type ℓ} {B : Type κ} → (A → Io S B) → Outcome A → Io S B
  continue f (done a) s = f a s
  continue f bad_value s = (bad_value, s)
  continue f symlink s = (symlink, s)
  continue f os_failed s = (os_failed, s)

  infixl 5 ◌>>=◌ ◌>>◌
  unfoldable pub ◌>>=◌ {ℓ κ} : {A : Type ℓ} {B : Type κ} → Io S A → (A → Io S B) → Io S B
  ◌>>=◌ m f s = continue f (m s).0 (m s).1

  abbrev pub ◌>>◌ {ℓ κ} : {A : Type ℓ} {B : Type κ} → Io S A → Io S B → Io S B
  m >> n = m >>= λ _. n

pub data Removal : Type 0 where
  gone not_there not_removed : Removal

-- What is at a path; `other` also where the question is refused.
pub data Kind : Type 0 where
  absent directory other : Kind

-- The descriptor of a directory is the list of the components by which it was reached, the last
-- one first. A call that fails may have changed the disk too.
pub record Disk : Type 1 where
  pub State : Type 0
  pub has_root : State → Bool
  pub open_dir : State → List Text → Text → OpenResult
  pub make_dir : State → List Text → Text → ℕ → Made × State
  pub open_write : State → List Text → Text → Bool → OpenResult × State
  pub write : State → List Text → Text → List ℕ → Bool × State
  pub open_read : State → List Text → Text → OpenResult
  pub read : State → List Text → Text → ℕ → ℕ → List ℕ
  pub size : State → List Text → Text → ℕ
  pub unlink : State → List Text → Text → Removal × State
  pub rmtree : State → List Text → Text → Removal × State
  pub kind_at : State → List Text → Kind
  pub make_dirs : State → List Text → Bool × State
  pub write_archive : State → List Text → List Text → Bool × State
  pub size_at : State → List Text → ℕ
