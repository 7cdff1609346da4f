-- ===== src/Tests/Stores.antt =====
-- The device flow and the lock retries.
use hopssh.Base.{ℕ, ◌≡◌, refl, false, none, some, [], ◌∷◌, ◌==◌, if◌then◌else◌}
use hopssh.Base.Text.{Bytes, codes, bytes_eq}
use hopssh.Db.DeviceCodes.{
  DeviceCode, authorized, completed, ok, claim_authorized, commits, find_authorized, update_where,
}
use hopssh.Db.Retry.{Retry, done, locked}

abbrev hash : Bytes → Bytes
hash c = 1 ∷ c

abbrev row : DeviceCode
row = record {
  device_code = hash (codes "d1");
  user_code = codes "HOP-ABCD";
  user_id = some (codes "u1");
  network_id = some (codes "net");
  node_id = none;
  status = authorized;
  expires_at = 700;
  created_at = 0;
}

claimed :
    claim_authorized hash commits 650 (codes "d1") (row ∷ [])
    ≡ (record row { status = completed } ∷ [], ok (some row))
unfolding claim_authorized find_authorized update_where bytes_eq
claimed = refl

-- The third retry works.
abbrev third : ℕ → Retry ℕ
third n = record { cancelled = false; outcome = if n == 2 then done 5 else locked n }
