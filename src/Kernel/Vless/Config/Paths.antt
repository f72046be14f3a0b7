-- ===== src/Kernel/Vless/Config/Paths.antt =====
-- The paths that the transports ask for (crates/neoncore-kernel/src/adapter/vless.rs).

use neon_core_atlas.Kernel.Vless.Config.{
  resolved_xhttp_mode, auto, VlessConfig, normalized_path, xhttp_path, grpc_path,
  trim_start_matches, method_path, rsplit_once,
}
use neon_core_atlas.Prelude.{
  ◌==◌, Bool-cases, All, ◌≡◌, refl, inl, inr, true, false, none, some, [], ◌∷◌, ◌++◌, arith, ℕ,
  ◌||◌, ◌≢◌,
}
use neon_core_atlas.Std.Bytes.{bytes_eq}
use neon_core_atlas.Std.Text.{Text, ends_with, ascii, starts_with}

-- A path that is normal is left alone.
normalized_path-again :
    (path : Text) → normalized_path (normalized_path path) ≡ normalized_path path
unfolding normalized_path starts_with
normalized_path-again [] = refl
normalized_path-again (c ∷ path) = ground arith

ends_with_last : (path : Text) → ends_with (path ++ (b'/' ∷ [])) (b'/' ∷ []) ≡ true
unfolding ends_with bytes_eq
ends_with_last [] = refl
ends_with_last (c ∷ path) =
    elim (Bool-cases (bytes_eq (c ∷ path ++ (b'/' ∷ [])) (b'/' ∷ [])))
      as (λ x.
        (bytes_eq (c ∷ path ++ (b'/' ∷ [])) (b'/' ∷ [])
          || ends_with (path ++ (b'/' ∷ [])) (b'/' ∷ []))
        ≡ true) [ inl e ↦ rw e refl | inr e ↦ rw e (ends_with_last path) ]

-- The path of XHTTP ends in a slash.
xhttp_path-ends_with : (config : VlessConfig) → ends_with (xhttp_path config) (ascii "/") ≡ true
unfolding xhttp_path
xhttp_path-ends_with config =
    elim (Bool-cases (ends_with (normalized_path config.transport.path) (ascii "/"))) [
      | inl e ↦ rw e e
      | inr e ↦ rw e (ends_with_last (normalized_path config.transport.path))
    ]

abbrev IsSegment : Text → Type 0
IsSegment = All (λ c. (c == b'/') ≡ false)

rsplit_once-none : (method : Text) → IsSegment method → rsplit_once b'/' method ≡ none
unfolding rsplit_once
rsplit_once-none [] free = refl
rsplit_once-none (c ∷ method) (here, free) = rw (rsplit_once-none method free, here) refl

rsplit_once-append :
    (service method : Text)
    → IsSegment method
    → rsplit_once b'/' (service ++ (b'/' ∷ method)) ≡ some (service, method)
unfolding rsplit_once
rsplit_once-append [] method free = rw (rsplit_once-none method free) refl
rsplit_once-append (c ∷ service) method free = rw (rsplit_once-append service method free) refl

-- A service name that is a path of a service and a method is asked for as it stands.
grpc_path_custom :
    (c : ℕ) (service method : Text)
    → (c == b'/') ≡ false
    → IsSegment method
    → grpc_path (b'/' ∷ c ∷ service ++ (b'/' ∷ method)) ≡ b'/' ∷ c ∷ service ++ (b'/' ∷ method)
unfolding grpc_path starts_with trim_start_matches method_path
grpc_path_custom c service method e free =
    rw (rsplit_once-append (b'/' ∷ c ∷ service) method free, e) refl

-- The mode that is used is never left open.
resolved_xhttp_mode-ne-auto : (config : VlessConfig) → resolved_xhttp_mode config ≢ auto
unfolding resolved_xhttp_mode
resolved_xhttp_mode-ne-auto config = ground arith
