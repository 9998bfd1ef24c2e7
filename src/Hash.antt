-- ===== src/Hash.antt =====
-- What the hashing services use of Crypto++: a digest engine that is fed in pieces, and the
-- encoder that prints a digest in hexadecimal. The engines' code is not part of the repository.
use polar_express.Base.{◌≡◌, Bytes, ◌++◌, []}

-- `update` is HashTransformation::Update, `final` is Final (it restarts the engine) and `digest`
-- is the hash function that the engine computes. The laws are those of the engine's manual.
pub record HashEngine : Type 1 where
  pub Engine : Type 0
  pub fresh : Engine
  pub update : Engine → Bytes → Engine
  pub final : Engine → Bytes × Engine
  pub digest : Bytes → Bytes
  pub hex : Bytes → Bytes
  pub update_nil : (e : Engine) → update e [] ≡ e
  pub update_append : (e : Engine) (xs ys : Bytes) → update (update e xs) ys ≡ update e (xs ++ ys)
  pub final_lem : (xs : Bytes) → final (update fresh xs) ≡ (digest xs, fresh)
