-- ===== src/Profile/Disk.antt =====
-- The two files of cmd/railctl/main.go, config.json and credentials.json, as `loadSettings`,
-- `loadCredentials` and `writeJSON` see them. What is written as JSON is read back as it was.
use juice_rail.Base.{
  ◌≡◌, ◌⊎◌, inl, inr, Bool-cases, ℕ, ◌%◌, Bool, not, ◌||◌, none, [], ◌==◌, if◌then◌else◌,
}
use juice_rail.Base.Lists.{Bytes, eq_bytes, eq_bytes_refl, eq_of_eq_bytes}
use juice_rail.Base.Error.{Result, ok, err, plain}
use juice_rail.Profile.{Settings}

-- A file that is not there, one that cannot be read or parsed, and one with its contents.
pub data Saved (A : Type 0) : Type 0 where
  missing broken : Saved A
  saved : A → Saved A

-- The permissions of a file, and the key that it holds for each profile, or nothing.
pub record Credentials : Type 0 where
  pub mode : ℕ
  pub keys : Bytes → Bytes

pub record Disk : Type 0 where
  pub settings : Saved Settings
  pub credentials : Saved Credentials

abbrev pub no_settings : Settings
no_settings = record { current = []; domains = λ name. none; profiles = λ name. none }

-- `loadSettings`
unfoldable pub load_settings : Saved Settings → Result Settings
load_settings missing = ok no_settings
load_settings broken = err plain
load_settings (saved set) = ok set

-- `perm&0o077 != 0`
abbrev pub readable_by_others : ℕ → Bool
readable_by_others mode = not (mode % 64 == 0)

-- `loadCredentials`
unfoldable pub load_credentials : Saved Credentials → Result (Bytes → Bytes)
load_credentials missing = ok (λ name. [])
load_credentials broken = err plain
load_credentials (saved c) = if readable_by_others c.mode then err plain else ok c.keys

-- Which of the steps of `writeJSON` fails: the temporary file is made, its permissions set, and it is written,
-- synced and closed, and takes the file's place in one step.
pub record WriteFaults : Type 0 where
  pub create : Bool
  pub chmod : Bool
  pub write : Bool
  pub sync : Bool
  pub close : Bool
  pub rename : Bool

-- `writeJSON`
unfoldable pub write_json : {A : Type 0} → WriteFaults → A → Saved A → Result (Unit {0}) × Saved A
write_json f new old =
    if f.create || (f.chmod || (f.write || (f.sync || (f.close || f.rename))))
    then (err plain, old)
    else (ok tt, saved new)

-- A map with one entry set.
abbrev pub put {ℓ} : {A : Type ℓ} → (Bytes → A) → Bytes → A → Bytes → A
put f key value name = if eq_bytes name key then value else f name

module _ {ℓ} {A : Type ℓ} (f : Bytes → A) (key : Bytes) (value : A) where
  pub put_at : put f key value key ≡ value
  put_at = rw (eq_bytes_refl key)

  -- What an entry is once another has been set.
  pub put_cases :
      (name : Bytes)
      → (name ≡ key) × (put f key value name ≡ value) ⊎ (put f key value name ≡ f name)
  put_cases name = elim (Bool-cases (eq_bytes name key)) [
    | inl same ↦ inl (eq_of_eq_bytes name key same, rw same)
    | inr other ↦ inr (rw other)
  ]
