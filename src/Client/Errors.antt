-- ===== src/Client/Errors.antt =====
-- errors.go: the error of a response, with the code and the message that its body tells.
use gokalshi.Base.{ℕ, Option, none, some, [], if◌then◌else◌, is_empty, Text}

pub record ApiError : Type 0 where
  pub status_code : ℕ
  pub error_method : Text
  pub error_path : Text
  pub error_body : Text
  pub code : Text
  pub message : Text

-- `nested` and `flat` are `json.Unmarshal` into the two anonymous structs: a code and a message.
module _ (nested flat : Text → Option (Text × Text)) where
  unfoldable pub fill_flat : ApiError → ApiError
  fill_flat e = elim (flat e.error_body) [
    | none ↦ e
    | some (code, message) ↦ record e { code = code; message = message }
  ]

  unfoldable pub new_api_error : ℕ → Text → Text → Text → ApiError
  unfolding fill_flat
  new_api_error status_code method path body =
      let e : ApiError = record {
        status_code = status_code;
        error_method = method;
        error_path = path;
        error_body = body;
        code = [];
        message = [];
      } in
      elim (nested body) [
        | none ↦ fill_flat e
        | some (code, message) ↦
            if is_empty code then fill_flat e else record e { code = code; message = message }
      ]
