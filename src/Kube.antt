-- ===== src/Kube.antt =====
-- What the operator takes from outside the repository: the API server behind client.Client, and the
-- helper functions of go-generics, controllerutil, crypto/sha256 and encoding/json.
pub mod Server
pub mod Library
