-- ===== src/Entity/Activation.antt =====
-- `NewActivation` of entity/activation.go, as one call of the clock and one of the random source.
use mirror_backend.Common.{ℕ, String, Option, none, some}
use mirror_backend.Action.{Action, Failure, pure, ◌>>=◌}
use mirror_backend.Session.{Tokens}

abbrev pub TokenType : Type 0
TokenType = ℕ

abbrev pub token_type_user : TokenType
token_type_user = 1

abbrev pub token_byte_length : ℕ
token_byte_length = 32

pub record Activation : Type 0 where
  pub id : Option ℕ
  pub token : Option String
  pub token_hash : Option String
  pub target_id : Option ℕ
  pub token_type : TokenType
  pub expire_time : Option ℕ
  pub create_time : Option ℕ

-- at `now`, with the random string that it generates
abbrev pub activation_of : Tokens → ℕ → String → ℕ → TokenType → Activation
activation_of tokens now random target_id token_type = record {
  id = none;
  token = some (tokens.base64_encode random);
  token_hash = some (tokens.sha256 random);
  target_id = some target_id;
  token_type = token_type;
  expire_time = some now;
  create_time = some now;
}

module _ {W E : Type 0} (tokens : Tokens) (now : Action W (Failure E) ℕ)
    (random : ℕ → Action W (Failure E) String) where
  unfoldable pub new_activation : ℕ → TokenType → Action W (Failure E) Activation
  new_activation target_id token_type = now >>= λ now. random token_byte_length >>= λ random.
      pure (activation_of tokens now random target_id token_type)
