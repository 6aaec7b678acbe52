-- ===== src/Manager/Redirects.antt =====
-- The redirections that the dispatcher follows.
use muld.Prelude.{ℕ, zero, suc, ◌+◌, ◌≡◌, ◌↔◌, refl, ap, ◌∙◌, true, some, [], if_true}
use muld.Prelude.Bytes.{Bytes}
use muld.Types.{Url}
use muld.Outcome.{returns, throws, or_throw, ◌>>=◌, >>=-eq-returns, returns-eq, or_throw-eq-returns}
use muld.Url.{parse_url}
use muld.Manager.{
  FileInfo, FetchResult, fetch_failed, redirect, successful, max_redirect_allow, resolve,
  resolve_answer, resolve_validated_file_info, is_supported, probe, probe_answer,
}

module _ (fetch : ℕ → Url → FetchResult) where
  -- At most `left` requests lead from an address to the information about a file and the address it is
  -- under: each but the last is answered with a redirection to an address that parses.
  pub data Chain : ℕ → ℕ → Url → FileInfo → Url → Type 0 where
    last :
        (left attempt : ℕ) (url : Url) (info : FileInfo)
        → fetch attempt url ≡ successful info
        → Chain (suc left) attempt url info url
    hop :
        (left attempt : ℕ) (url next end : Url) (info : FileInfo) (new_url : Bytes)
        → fetch attempt url ≡ redirect new_url
        → parse_url new_url ≡ some next
        → Chain left (attempt + 1) next info end
        → Chain (suc left) attempt url info end

  Chain-resolve :
      (left attempt : ℕ) (url : Url) (info : FileInfo) (end : Url)
      → Chain left attempt url info end
      → resolve fetch left attempt url ≡ returns (some info, end)
  unfolding resolve
  Chain-resolve _ _ _ _ _ (last left attempt url info h) =
      ap (λ a. resolve_answer url a (λ u. resolve fetch left (attempt + 1) u)) h
  Chain-resolve _ _ _ _ _ (hop left attempt url next end info new_url h p c) =
      ap (λ a. resolve_answer url a (λ u. resolve fetch left (attempt + 1) u)) h
      ∙ ap (λ o. or_throw o >>= λ u. resolve fetch left (attempt + 1) u) p
      ∙ Chain-resolve left (attempt + 1) next info end c

  last_at :
      (left attempt : ℕ) (url : Url) (i info : FileInfo) (end : Url)
      → fetch attempt url ≡ successful i
      → some i ≡ some info
      → url ≡ end
      → Chain (suc left) attempt url info end
  last_at left attempt url i info end h same here =
      let same' : i ≡ info = cc in rw (← here, ← same') (last left attempt url i h)

  resolve-Chain :
      (left attempt : ℕ) (url : Url) (info : FileInfo) (end : Url)
      → resolve fetch left attempt url ≡ returns (some info, end)
      → Chain left attempt url info end
  unfolding resolve
  resolve-Chain zero attempt url info end h = absurd (cc)
  resolve-Chain (suc left) attempt url info end h =
      go (fetch attempt url) refl (λ next q. resolve-Chain left (attempt + 1) next info end q) h
    where
      go :
          (a : FetchResult)
          → fetch attempt url ≡ a
          → ((next : Url)
              → resolve fetch left (attempt + 1) next ≡ returns (some info, end)
              → Chain left (attempt + 1) next info end)
          → resolve_answer url a (λ u. resolve fetch left (attempt + 1) u)
            ≡ returns (some info, end)
          → Chain (suc left) attempt url info end
      go (successful i) e again q =
          let p = returns-eq (some i, url) (some info, end) q in
          last_at left attempt url i info end e (ap (λ r. r.0) p) (ap (λ r. r.1) p)
      go (fetch_failed x) e again q = absurd (cc)
      go (redirect new_url) e again q =
          let (next, p, rest) =
            >>=-eq-returns (or_throw (parse_url new_url)) (λ u. resolve fetch left (attempt + 1) u)
              (some info, end) q in
          hop left attempt url next end info new_url e
            (or_throw-eq-returns (parse_url new_url) next p) (again next rest)

  -- `ResolveValidatedFileInfo` succeeds exactly when at most three requests lead to the file, with what
  -- the last one found and the address it was sent to.
  pub resolve_validated_file_info-Chain :
      (url : Url) (info : FileInfo) (end : Url)
      → (resolve_validated_file_info fetch url ≡ returns (some info, end))
        ↔ Chain max_redirect_allow 0 url info end
  unfolding resolve_validated_file_info
  resolve_validated_file_info-Chain url info end =
      (resolve-Chain 3 0 url info end, Chain-resolve 3 0 url info end)

  -- A redirection with an empty address, in answer to a request of a supported scheme, makes the loop
  -- for downloads throw.
  pub probe_empty_location :
      (left attempt : ℕ) (url : Url)
      → is_supported url ≡ true
      → fetch attempt url ≡ redirect []
      → probe fetch (suc left) attempt url ≡ throws
  unfolding probe parse_url
  probe_empty_location left attempt url supported h =
      if_true (is_supported url) _ _ supported
      ∙ ap (λ a. probe_answer url a (λ u. probe fetch left (attempt + 1) u)) h
