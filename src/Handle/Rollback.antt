-- ===== src/Handle/Rollback.antt =====
-- `Hansa::open` refuses a log that is behind what it has seen.
use hansa.Prelude.{
  ℕ, ◌^◌, ◌<◌, ◌≡◌, refl, sym, ap, ◌∙◌, inl, inr, true, Option, none, some, List, Bool-cases,
  length, All,
}
use hansa.Prelude.Bytes.{Bytes, IsByte, eq_bytes_refl}
use hansa.Error.{ok, chain_regressed}
use hansa.Sign.{Crypto}
use hansa.Hex.{Outcome, returned, failed, panicked}
use hansa.HeadCache.{HeadCache, load, store, check_and_record, check_loaded, has_regressed}
use hansa.HeadCache.Text.{load-store}
use hansa.HeadCache.Regress.{Check, check_all, no_rollback}
use hansa.Chain.{ReplayOutcome}
use hansa.Registry.File.{FileRegistry}
use hansa.Handle.{Hansa}
use hansa.Handle.Open.{
  HansaConfig, resolve_id, verified, remember, opened, check_head, open_as, open_hansa,
}

-- A head that is taken is stored.
check_loaded-returned :
    (o : Outcome (Option (ℕ × Bytes))) (id : Bytes) (seq : ℕ) (hash : Bytes)
    (cache after : HeadCache)
    → check_loaded o id seq hash cache ≡ (returned tt, after)
    → after ≡ store id seq hash cache
unfolding check_loaded
check_loaded-returned (failed e) id seq hash cache after h = absurd (cc (ap (λ r. r.0) h))
check_loaded-returned panicked id seq hash cache after h = absurd (cc (ap (λ r. r.0) h))
check_loaded-returned (returned none) id seq hash cache after h = sym (ap (λ r. r.1) h)
check_loaded-returned (returned (some (s, g))) id seq hash cache after h =
    elim (Bool-cases (has_regressed seq hash s g)) [
      | inl back ↦
          let never : (failed chain_regressed, cache) ≡ (returned tt, after) = rw back at h in
          absurd (cc (ap (λ r. r.0) never))
      | inr forth ↦
          let taken : (returned tt, store id seq hash cache) ≡ (returned tt, after) =
            rw forth at h in
          sym (ap (λ r. r.1) taken)
    ]

opened-returned :
    (config : HansaConfig) (id : Bytes) (reg after_reg : FileRegistry)
    (r : Outcome (Unit {0}) × HeadCache) (h : Hansa) (after : HeadCache)
    → opened config id reg r ≡ (returned h, (after_reg, after))
    → r ≡ (returned tt, after)
unfolding opened
opened-returned config id reg after_reg (returned done, cache) h after e =
    ap (λ known. (returned tt, known)) (ap (λ r. r.1.1) e)
opened-returned config id reg after_reg (failed e', cache) h after e = absurd (cc (ap (λ r. r.0) e))
opened-returned config id reg after_reg (panicked, cache) h after e = absurd (cc (ap (λ r. r.0) e))

module _ (c : Crypto) (config : HansaConfig) (id : Bytes) where
  pub open_hansa_lem :
      (now : ℕ) (reg after : FileRegistry) (cache : HeadCache) (out : ReplayOutcome)
      → config.has_head_cache ≡ true
      → resolve_id c config.skipper config.hansa_id ≡ ok id
      → verified c config id now reg ≡ (ok out, after)
      → open_hansa c config now reg cache
        ≡ opened config id after (check_and_record id out.head_seq out.head_hash cache)
  unfolding open_hansa open_as check_head remember
  open_hansa_lem now reg after cache out keeps same_id first = rw (same_id, first, keeps) refl

  -- A member that opens the hansa and keeps heads remembers the head of the log. Whatever heads are checked in
  -- between, of whatever hansas, when the registry comes to give it a log of that hansa with an
  -- earlier head, `open` fails with ChainRegressed and leaves the remembered heads as they are.
  pub open_hansa-rollback :
      (now later : ℕ) (reg reg_after later_reg later_after : FileRegistry)
      (cache cache_after : HeadCache) (h : Hansa) (out low : ReplayOutcome) (ks : List Check)
      → config.has_head_cache ≡ true
      → resolve_id c config.skipper config.hansa_id ≡ ok id
      → verified c config id now reg ≡ (ok out, reg_after)
      → open_hansa c config now reg cache ≡ (returned h, (reg_after, cache_after))
      → out.head_seq < 2 ^ 64
      → length out.head_hash ≡ 32
      → All IsByte out.head_hash
      → verified c config id later later_reg ≡ (ok low, later_after)
      → low.head_seq < out.head_seq
      → open_hansa c config later later_reg (check_all ks cache_after)
        ≡ (failed chain_regressed, (later_after, check_all ks cache_after))
  open_hansa-rollback now later reg reg_after later_reg later_after cache cache_after h out low ks
        keeps same_id first open_ok fits size bytes second behind =
      let seen = open_hansa_lem now reg reg_after cache out keeps same_id first in
      let taken =
        opened-returned config id reg_after reg_after
          (check_and_record id out.head_seq out.head_hash cache) h cache_after
          (sym seen ∙ open_ok) in
      let stored : cache_after ≡ store id out.head_seq out.head_hash cache =
        check_loaded-returned (load id cache) id out.head_seq out.head_hash cache cache_after
          (unfold check_and_record in taken) in
      let loaded : load id cache_after ≡ returned (some (out.head_seq, out.head_hash)) =
        ap (load id) stored
        ∙ load-store id id out.head_seq out.head_hash cache fits size bytes
        ∙ rw (eq_bytes_refl id) refl in
      let refused =
        no_rollback id out.head_seq out.head_hash ks cache_after low.head_seq low.head_hash loaded
          behind in
      open_hansa_lem later later_reg later_after (check_all ks cache_after) low keeps same_id second
      ∙ ap (opened config id later_after) refused
      ∙ unfold opened in refl
