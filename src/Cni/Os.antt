-- ===== src/Cni/Os.antt =====
-- What internal/cni asks of the operating system: functions of package `os` on a world `W`, with
-- errors `E`. An open file is a number. A call that fails may have changed the world.
use linkerd2_proxy_init.Base.{ℕ, Bytes, Bool, true, false, Option, List, Result, ok, err}

pub record FileInfo : Type 0 where
  pub mode : ℕ
  pub is_dir : Bool

pub record DirEntry : Type 0 where
  pub name : Bytes
  pub is_dir : Bool
  pub is_regular : Bool

pub record Os (W E : Type 0) : Type 0 where
  pub is_not_exist : E → Bool
  pub getenv : Bytes → Bytes
  pub read_file : Bytes → W → Result E Bytes
  pub stat : Bytes → W → Result E FileInfo
  pub read_dir : Bytes → W → Result E (List DirEntry)
  pub write_file : Bytes → Bytes → ℕ → W → Option E × W
  -- `OpenFile` with O_CREATE, O_TRUNC and O_WRONLY
  pub open_file : Bytes → ℕ → W → Result E ℕ × W
  -- `Open`
  pub open_read : Bytes → W → Result E ℕ × W
  -- `io.Copy`
  pub copy : ℕ → ℕ → W → Option E × W
  pub write : ℕ → Bytes → W → Option E × W
  pub sync : ℕ → W → Option E × W
  pub close : ℕ → W → Option E × W
  pub rename : Bytes → Bytes → W → Option E × W
  pub remove : Bytes → W → Option E × W

-- `stat` returns no error.
abbrev pub is_found : {E : Type 0} → Result E FileInfo → Bool
is_found (ok info) = true
is_found (err e) = false
