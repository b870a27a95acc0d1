-- ===== src/Qrmi/Stub.antt =====
-- src/internal/qrmi/qrmi_stub.go: the package without libqrmi. Its types have no fields; a receiver
-- that is nil is `none`.
use qpu_resource.Prelude.{Bool, false, List, [], Option, Text}
use qpu_resource.Prelude.Int.{ℤ, pos}
use qpu_resource.Errors.{Error, errorf, Result, err}
use qpu_resource.Hooks.{EnvVar}

pub record Config : Type 0 where

pub record ResourceDef : Type 0 where

pub record Resource : Type 0 where

abbrev err_not_available : Error
err_not_available = errorf "qrmi: built without -tags qrmi; no libqrmi support" []

unfoldable pub load_config : Text → Result (Option Config)
load_config path = err err_not_available

unfoldable pub config_resource_def : Option Config → Text → Result (Option ResourceDef)
config_resource_def c name = err err_not_available

unfoldable pub def_type : Option ResourceDef → ℤ
def_type d = pos 0

unfoldable pub def_type_string : Option ResourceDef → Text
def_type_string d = []

unfoldable pub def_environments : Option ResourceDef → List EnvVar
def_environments d = []

unfoldable pub new_resource : Text → ℤ → Result (Option Resource)
new_resource name typ = err err_not_available

-- A value is returned beside the error; no caller reads it.
unfoldable pub is_accessible : Option Resource → Bool × Error
is_accessible r = (false, err_not_available)

unfoldable pub acquire : Option Resource → Text × Error
acquire r = ([], err_not_available)

unfoldable pub release : Option Resource → Text → Error
release r token = err_not_available
