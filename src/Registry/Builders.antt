-- ===== src/Registry/Builders.antt =====
-- The builders of `EntityConfig` in crates/polybase/src/registry/mod.rs that set one field.
use polykit_rust.Prelude.{String, Bool, some, List, [], ◌∷◌, ◌++◌}
use polykit_rust.Registry.{ColumnDef, EntityConfig, ParentRelation, FactoryFn, edge}

abbrev pub with_column : ColumnDef → EntityConfig → EntityConfig
with_column column config = record config { columns = config.columns ++ column ∷ [] }

abbrev pub with_columns : List ColumnDef → EntityConfig → EntityConfig
with_columns columns config = record config { columns = config.columns ++ columns }

abbrev pub with_parent : ParentRelation → EntityConfig → EntityConfig
with_parent relation config = record config { parent_relation = some relation }

abbrev pub with_factory : FactoryFn → EntityConfig → EntityConfig
with_factory factory config = record config { factory = some factory }

abbrev pub with_user_id_column : String → EntityConfig → EntityConfig
with_user_id_column column config = record config { user_id_column = some column }

abbrev pub with_include_user_id : Bool → EntityConfig → EntityConfig
with_include_user_id include config = record config { include_user_id = include }

abbrev pub write_via_edge : String → String → EntityConfig → EntityConfig
write_via_edge function default_op config = record config { write_path = edge function default_op }

abbrev pub with_conflict_target : String → EntityConfig → EntityConfig
with_conflict_target target config = record config { conflict_target = target }
