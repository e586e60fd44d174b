-- ===== src/Config/Tests.antt =====
-- Runs of the readers of the environment, and of the test for a development environment.
use dante_api_systems.Base.{◌≡◌, refl, true, false, String, str_eq, if◌then◌else◌}
use dante_api_systems.Config.{AppConfig, getenv, is_development, lower_is}
use dante_api_systems.Go.Strings.{trim_space}

abbrev environment : String → String
environment key = if str_eq key "APP_ENV" then " Local " else ""

run_set : getenv environment "APP_ENV" "production" ≡ "Local"
unfolding getenv trim_space
run_set = refl

run_unset : getenv environment "APP_PORT" "8080" ≡ "8080"
unfolding getenv trim_space
run_unset = refl

abbrev in_mode : String → AppConfig
in_mode mode = record { environment = mode; version = "0.1.0"; port = "8080" }

run_local : is_development (in_mode " Local ") ≡ true
unfolding is_development lower_is trim_space
run_local = refl

run_production : is_development (in_mode "production") ≡ false
unfolding is_development lower_is trim_space
run_production = refl
