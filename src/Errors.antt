-- ===== src/Errors.antt =====
-- backend/app/errors.py, the exceptions of the libraries that the code names in its handlers, and
-- the two ways a call ends.
use xieyi.Prelude.{ℕ, String}

pub record DomainError : Type 0 where
  pub class_name : String
  pub code : String
  pub message : String
  pub status_code : ℕ

-- The subclasses of `DomainError` only fix the status; `class_name` is the subclass.
abbrev pub not_found_error : String → String → DomainError
not_found_error code message = record {
  class_name = "NotFoundError";
  code = code;
  message = message;
  status_code = 404;
}

abbrev pub conflict_error : String → String → DomainError
conflict_error code message = record {
  class_name = "ConflictError";
  code = code;
  message = message;
  status_code = 409;
}

abbrev pub evidence_validation_error : String → String → DomainError
evidence_validation_error code message = record {
  class_name = "EvidenceValidationError";
  code = code;
  message = message;
  status_code = 422;
}

abbrev pub storage_error : String → DomainError
storage_error message = record {
  class_name = "StorageError";
  code = "STORAGE_ERROR";
  message = message;
  status_code = 503;
}

-- `sqlalchemy_error` and `other` carry the name of the exception's class, and `s3_error`, which is
-- MinIO's `S3Error`, its `code`; `sqlalchemy_error` is any `SQLAlchemyError` but `IntegrityError`,
-- which is a subclass of it too.
pub data Exception : Type 0 where
  domain_error : DomainError → Exception
  key_error value_error : String → Exception
  integrity_error : Exception
  sqlalchemy_error s3_error other : String → Exception

pub data Result {ℓ} (A : Type ℓ) : Type ℓ where
  ok : A → Result A
  err : Exception → Result A

infixl 5 ◌>>=◌
abbrev pub ◌>>=◌ {ℓ κ} : {A : Type ℓ} {B : Type κ} → Result A → (A → Result B) → Result B
ok a >>= f = f a
err e >>= f = err e

-- `type(exc).__name__`
abbrev pub exception_name : Exception → String
exception_name (domain_error e) = e.class_name
exception_name (key_error key) = "KeyError"
exception_name (value_error message) = "ValueError"
exception_name integrity_error = "IntegrityError"
exception_name (sqlalchemy_error name) = name
exception_name (s3_error code) = "S3Error"
exception_name (other name) = name
