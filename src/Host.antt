-- ===== src/Host.antt =====
-- What the operator takes from its process and from Go's crypto and encoding packages: the
-- environment variables, SHA-256, SHA-1 and base64.
use codeflare_operator.Base.{ℕ, String, ◌≡◌, Option, List}
use codeflare_operator.Base.Lists.{length}

pub record Host : Type 0 where
  pub lookup_env : String → Option String
  pub sum256 : String → List ℕ
  pub sum1 : String → List ℕ
  pub encode_base64 : List ℕ → String

-- `sha256.Sum256` returns an array of 32 bytes.
pub record IsSha256 (h : Host) : Type 0 where
  pub size : (s : String) → length (h.sum256 s) ≡ 32
