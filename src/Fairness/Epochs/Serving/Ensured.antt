-- ===== src/Fairness/Epochs/Serving/Ensured.antt =====
-- The epoch that serves, while other calls act.
use vault_runner_api.Prelude.{ℕ, true, false, some, List, is_some, ◌≡◌, refl, ap, ◌∙◌, arith}
use mathlib.Core.List.{Memᴰ}
use vault_runner_api.Prog.Safe.{
  Safe, Safe-ret, Safe-write, Safe-if, Safe-option, Safe-bind, Safe-weaken,
}
use vault_runner_api.World.{Text}
use vault_runner_api.Fairness.Salt.{is_eth_block}
use vault_runner_api.Fairness.Epochs.Serving.Booted.{IsBooted}
use vault_runner_api.Fairness.Epochs.{
  pending, armed, active, Chain, FairnessDb, in_status, find_active, Sources, create_epoch,
  EpochStatus, epoch_eq,
}
use vault_runner_api.Fairness.Epochs.Serving.{
  try_resolve, with_salt, is_refused, activate_pending, activate_armed, ensure_active_chain,
}
use vault_runner_api.Fairness.Epochs.Serving.Rows.{overlap, found_updated, KeepsRow}
use vault_runner_api.Fairness.Epochs.Serving.Served.{
  AnyError, Seen, Seen-Later, CanServe, Serves, query_safe, retire_safe, promote_safe,
  try_resolve-Resolves, salted-Kept,
}
use vault_runner_api.Fairness.Epochs.Serving.Opened.{create_epoch_safe}

pub status_lem : (s : EpochStatus) (c : Chain) → in_status s c ≡ true → c.status ≡ s
status_lem s c h = same c.status s h
  where
    same : (a b : EpochStatus) → epoch_eq a b ≡ true → a ≡ b
    same a b h = ground arith

pub with_salt_keeps : (h : Text) (now : ℕ) → KeepsRow (with_salt h now)
with_salt_keeps h now = record { same_id = λ d. refl; same_row = λ d. (refl, refl, λ has. refl) }

module _ (sha256_hex : Text → Text) (xs : List Sources) (x : Sources) (here : Memᴰ x xs)
    (booted : IsBooted x) where
  -- A row that was seen with its salt, and that strict mode does not refuse, may serve.
  Seen-CanServe :
      (c : Chain) (s : FairnessDb)
      → Seen xs c s
      → is_some c.salt ≡ true
      → (x.strict ≡ true → is_eth_block c.salt_source ≡ true)
      → CanServe xs x s c.id
  Seen-CanServe c s (row, d, found, (source, target, salted)) has block =
      (d, found, salted has, λ strict. ap is_eth_block source ∙ block strict)

  not_refused :
      (c : Chain) → is_refused x c ≡ false → x.strict ≡ true → is_eth_block c.salt_source ≡ true
  not_refused c e strict = ground arith

  opened :
      (s : FairnessDb) → Safe (overlap xs) AnyError (Serves xs x) (create_epoch sha256_hex x true) s
  opened s =
      Safe-weaken (λ t o. true ≡ true → Serves xs x t o) (Serves xs x) (λ o t h. h refl) _ s
        (create_epoch_safe xs x booted sha256_hex true s)

  activate_pending_safe :
      (s : FairnessDb) → Safe (overlap xs) AnyError (Serves xs x) (activate_pending sha256_hex x) s
  unfolding activate_pending
  activate_pending_safe s = Safe-bind _ _ s (query_safe xs (in_status pending) _ s) λ o t _ found.
      Safe-option o _ _ t (λ _. opened t)
        λ c e.
          let (seen, waits) = found c e in
          Safe-option (try_resolve x c) _ _ t (λ _. opened t)
            λ h e'.
              let block = seen.0.waits (status_lem pending c waits) in
              let resolves = try_resolve-Resolves xs x c h here booted seen.0.by_block e' in
              Safe-bind {P = λ v _. CanServe xs x v c.id} _ _ t
                (Safe-write _ t λ v past kept.
                  let now_seen = Seen-Later xs c t v past seen in
                  let (row, d, there, same_as) = now_seen in
                  let keeps = with_salt_keeps h v.now in
                  (
                    salted-Kept xs v kept c h (with_salt h v.now) now_seen resolves keeps
                        (λ d. refl) (λ d e. e),
                    (
                      with_salt h v.now d,
                      found_updated xs v kept c.id (with_salt h v.now) keeps d there,
                      refl,
                      λ strict. ap is_eth_block same_as.0 ∙ block,
                    ),
                  ))
                (λ _ v _ serves. promote_safe xs x c.id v serves)

  activate_armed_safe :
      (s : FairnessDb) → Safe (overlap xs) AnyError (Serves xs x) (activate_armed sha256_hex x) s
  unfolding activate_armed
  activate_armed_safe s = Safe-bind _ _ s (query_safe xs (in_status armed) _ s) λ o t _ found.
      Safe-option o _ _ t (λ _. activate_pending_safe t)
        λ c e.
          let (seen, is_armed) = found c e in
          let has = seen.0.is_armed (status_lem armed c is_armed) in
          Safe-if (is_refused x c) _ _ t
            (λ _. Safe-bind _ _ t (retire_safe xs c t) (λ _ v _ _. activate_pending_safe v))
            (λ fine. promote_safe xs x c.id t (Seen-CanServe c t seen has (not_refused c fine)))

  pub ensure_active_chain_safe :
      (s : FairnessDb)
      → Safe (overlap xs) AnyError (Serves xs x) (ensure_active_chain sha256_hex x) s
  unfolding ensure_active_chain find_active
  ensure_active_chain_safe s = Safe-bind _ _ s (query_safe xs (in_status active) _ s) λ o t _ found.
      Safe-option o _ _ t (λ _. activate_armed_safe t)
        λ c e.
          let (seen, is_active) = found c e in
          let has = seen.0.is_active (status_lem active c is_active) in
          Safe-if (is_refused x c) _ _ t
            (λ _. Safe-bind _ _ t (retire_safe xs c t) (λ _ v _ _. activate_armed_safe v))
            (λ fine. Safe-ret (some c) t (Seen-CanServe c t seen has (not_refused c fine)))
