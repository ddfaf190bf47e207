-- ===== src/Context/Service/Stale.antt =====
-- How long `StaticContextService` serves a context.
use nitpicker_daemon.Prelude.{
  String, true, Option, none, some, List, [], ◌∷◌, ◌≡◌, refl, sym, ap, ◌∙◌, if◌then◌else◌, arith,
  eq_iff, eq_refl,
}
use nitpicker_daemon.Python.Errors.{Result, ok, raised}
use nitpicker_daemon.Python.Json.{lookup, lookup-insert}
use nitpicker_daemon.Models.{ReviewRequest, ContextBundle}
use nitpicker_daemon.Context.{Tiers, collect}
use nitpicker_daemon.Context.Service.{
  ContextService, remember, bundle_of, after_collect, from_cache, build_context,
}

module _ {W : Type 0} (sha256 : String → String) where
  abbrev pub Holds : ContextService W → String → ContextBundle → Type 0
  Holds s f b = (s.cache_enabled ≡ true) × (lookup f s.cache ≡ some b)

  after_collect-Holds :
      (request : ReviewRequest) (s : ContextService W) (c : Result Tiers × W) (f : String)
      (b : ContextBundle)
      → lookup request.target_file s.cache ≡ none
      → Holds s f b
      → Holds (after_collect sha256 request s c).1 f b
  unfolding after_collect remember
  after_collect-Holds request s (raised e, w) f b missing h = h
  after_collect-Holds request s (ok tiers, w) f b missing (on, held) = (
    on,
    ground (
      arith,
      lookup-insert request.target_file f (bundle_of sha256 request tiers) s.cache,
      eq_iff request.target_file f,
    ),
  )

  from_cache-Holds :
      (found : Option ContextBundle) (request : ReviewRequest) (s : ContextService W) (w : W)
      (f : String) (b : ContextBundle)
      → lookup request.target_file s.cache ≡ found
      → Holds s f b
      → Holds (from_cache sha256 found request s w).1 f b
  unfolding from_cache
  from_cache-Holds (some c) request s w f b found h = h
  from_cache-Holds none request s w f b missing h =
      after_collect-Holds request s (collect s.providers request w) f b missing h

  build_context-enabled :
      (request : ReviewRequest) (s : ContextService W) (w : W)
      → s.cache_enabled ≡ true
      → build_context sha256 request s w
        ≡ from_cache sha256 (lookup request.target_file s.cache) request s w
  unfolding build_context
  build_context-enabled request s w on =
      ap
        (λ enabled.
          from_cache sha256 (if enabled then lookup request.target_file s.cache else none) request s
            w)
        on

  build_context-Holds :
      (request : ReviewRequest) (s : ContextService W) (w : W) (f : String) (b : ContextBundle)
      → Holds s f b
      → Holds (build_context sha256 request s w).1 f b
  build_context-Holds request s w f b h =
      rw (build_context-enabled request s w h.0)
        (from_cache-Holds (lookup request.target_file s.cache) request s w f b refl h)

  -- the service and the world after contexts were built for requests
  abbrev pub after_builds : List ReviewRequest → ContextService W → W → ContextService W × W
  after_builds [] s w = (s, w)
  after_builds (request ∷ requests) s w =
      let (answer, s', w') = build_context sha256 request s w in after_builds requests s' w'

  after_builds-Holds :
      (requests : List ReviewRequest) (s : ContextService W) (w : W) (f : String)
      (b : ContextBundle)
      → Holds s f b
      → Holds (after_builds requests s w).0 f b
  after_builds-Holds [] s w f b h = h
  after_builds-Holds (request ∷ requests) s w f b h =
      after_builds-Holds requests _ _ f b (build_context-Holds request s w f b h)

  after_collect-served :
      (request : ReviewRequest) (s : ContextService W) (c : Result Tiers × W) (b : ContextBundle)
      → s.cache_enabled ≡ true
      → (after_collect sha256 request s c).0 ≡ ok b
      → Holds (after_collect sha256 request s c).1 request.target_file b
  unfolding after_collect remember
  after_collect-served request s (raised e, w) b on h = absurd (cc)
  after_collect-served request s (ok tiers, w) b on h = (
    on,
    ground (
      arith,
      lookup-insert request.target_file request.target_file (bundle_of sha256 request tiers)
          s.cache,
      eq_refl request.target_file,
    ),
  )

  from_cache-served :
      (found : Option ContextBundle) (request : ReviewRequest) (s : ContextService W) (w : W)
      (b : ContextBundle)
      → s.cache_enabled ≡ true
      → lookup request.target_file s.cache ≡ found
      → (from_cache sha256 found request s w).0 ≡ ok b
      → Holds (from_cache sha256 found request s w).1 request.target_file b
  unfolding from_cache
  from_cache-served (some c) request s w b on found h = (on, cc)
  from_cache-served none request s w b on missing h =
      after_collect-served request s (collect s.providers request w) b on h

  -- If the cache is enabled and a context was built for a request, then after contexts were built
  -- for any other requests, the context for a request of the same file is the one of the first
  -- request, whatever its diff, and no provider is asked.
  pub context_is_first :
      (request again : ReviewRequest) (s : ContextService W) (w : W) (b : ContextBundle)
      (between : List ReviewRequest)
      → s.cache_enabled ≡ true
      → (build_context sha256 request s w).0 ≡ ok b
      → again.target_file ≡ request.target_file
      → let (_, s', w') = build_context sha256 request s w in
        let (t, v) = after_builds between s' w' in build_context sha256 again t v ≡ (ok b, t, v)
  unfolding from_cache
  context_is_first request again s w b between on built same =
      let (_, s', w') = build_context sha256 request s w in
      let enabled = build_context-enabled request s w on in
      let first : Holds s' request.target_file b = rw enabled (
        from_cache-served (lookup request.target_file s.cache) request s w b on refl
          (sym (ap (λ x. x.0) enabled) ∙ built)) in
      let held = after_builds-Holds between s' w' request.target_file b first in
      build_context-enabled again (after_builds between s' w').0 (after_builds between s' w').1
        held.0
      ∙ rw same (rw held.1 refl)
