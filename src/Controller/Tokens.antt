-- ===== src/Controller/Tokens.antt =====
-- What `reconcileClients` does to a client's token.
use k8sgrowthbook_controller.Prelude.{
  ℕ, zero, suc, Option, none, some, [], ◌∷◌, ◌++◌, GoString, str,
}
use k8sgrowthbook_controller.Prelude.{◌==◌, text_eq, if◌then◌else◌}
use k8sgrowthbook_controller.Prelude.Options.{◌>>=◌}

-- `s[:n]`; `none` is the panic of a text that is shorter.
unfoldable pub slice_to : ℕ → GoString → Option GoString
slice_to zero s = some []
slice_to (suc n) [] = none
slice_to (suc n) (c ∷ s) = do p ← slice_to n s; some (c ∷ p)

-- The key of a connection: the token, with "sdk-" in front unless it begins so.
unfoldable pub sdk_key : GoString → Option GoString
unfolding slice_to
sdk_key token = do
  start ← slice_to 4 token
  some (if start == str "sdk-" then token else str "sdk-" ++ token)
