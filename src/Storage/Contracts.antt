-- ===== src/Storage/Contracts.antt =====
-- The records of src/harness/storage/contracts.ts. A timestamp is the number that `Date.parse`
-- gives for it: milliseconds, or none where the text is no date.
use loomctl.Base.{ℕ, String, Option}

pub record StoredDocument {ℓ} (V : Type ℓ) : Type ℓ where
  pub namespace : String
  pub key : String
  pub version : ℕ
  pub value : V
  pub updated_at : ℕ

pub record StoredEvent {ℓ} (V : Type ℓ) : Type ℓ where
  pub stream : String
  pub seq : ℕ
  pub ts : ℕ
  pub value : V

abbrev pub Timestamp : Type 0
Timestamp = Option ℕ

pub record LeaseRecord {ℓ} (V : Type ℓ) : Type ℓ where
  pub key : String
  pub owner : String
  pub acquired_at : Timestamp
  pub expires_at : Timestamp
  pub value : V

pub record QueueClaim : Type 0 where
  pub owner : String
  pub claimed_at : Timestamp
  pub expires_at : Timestamp

pub record QueueItem {ℓ} (V : Type ℓ) : Type ℓ where
  pub queue : String
  pub id : String
  pub enqueued_at : ℕ
  pub value : V
  pub claim : Option QueueClaim
