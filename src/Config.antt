-- ===== src/Config.antt =====
-- internal/config/config.go: the connections of a configuration file, the defaults of what they leave
-- open, and the validation. The YAML decoder that reads them is gopkg.in/yaml.v3, and is not modelled.
pub mod Net
pub mod Connection
pub mod Validate
pub mod Valid
pub mod Accepted
