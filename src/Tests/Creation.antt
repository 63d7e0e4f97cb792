-- ===== src/Tests/Creation.antt =====
-- New accounts and new resources on the small deployment.
use dvarpala.Base.{pos, ◌≡◌, refl, some, Text, [], codes, find, any, text_eq, trim_space, to_lower}
use dvarpala.Models.{Resource, ResourceType}
use dvarpala.Platform.{World, Result, ok, ◌>>=◌, select, insert, execute, tables}
use dvarpala.Net.{cut, split_cidr, is_ipv6, parse_ipv4, split_at, octet?, digits_value}
use dvarpala.Services.Audit.{log}
use dvarpala.Services.Users.{CreateUserRequest, create_user}
use dvarpala.Services.Users.Creation.{Kept, create_user-Unique}
use dvarpala.Services.Resources.{
  CreateResourceRequest, resource_type, new_resource, create_resource, address_resource,
  name_resource, insert_resource,
}
use dvarpala.Services.Resources.Creation.{NameIsFree, create_resource_sound, create_resource_blank}
use dvarpala.Tests.Local.{local, local-IsReliable, start, small_tables}

abbrev ann : CreateUserRequest
ann = record { email = codes " Ann@acme.com"; full_name = codes "Ann"; department = [] }

create_user-Unique_example : Kept ann small_tables (tables (create_user 5 ann start).1)
unfolding any
create_user-Unique_example = create_user-Unique 5 ann start (refl, tt)

abbrev machine : Text → CreateResourceRequest
machine ip = record {
  name = codes " build ";
  kind = codes "VM";
  url = [];
  ip_address = ip;
  port = pos 22;
  description = [];
}

abbrev build : Text → Resource
build ip = new_resource (codes "build") ResourceType.vm ip (machine ip) 2

build_is_free : NameIsFree (codes "build") small_tables
unfolding find text_eq
build_is_free = refl

trimmed : trim_space (codes " build ") ≡ codes "build"
unfolding trim_space
trimmed = refl

is_vm : resource_type (to_lower (trim_space (codes "VM"))) ≡ some ResourceType.vm
unfolding resource_type to_lower trim_space text_eq
is_vm = refl

create_resource_blank_example :
    (create_resource 5 (machine (codes " ")) start).0
    ≡ ok (new_resource (codes "build") ResourceType.vm [] (machine (codes " ")) 2)
unfolding trim_space
create_resource_blank_example =
    create_resource_blank local-IsReliable 5 ResourceType.vm (machine (codes " ")) start refl is_vm
      refl refl refl build_is_free

abbrev outcome : Result Resource × World local
outcome = create_resource 5 (machine (codes "10.0.0.9")) start

made : outcome ≡ (ok (build (codes "10.0.0.9")), outcome.1)
unfolding create_resource address_resource name_resource insert_resource resource_type to_lower
    trim_space text_eq select insert execute ◌>>=◌ log find split_cidr is_ipv6 parse_ipv4 split_at
    octet? digits_value cut
made = refl

create_resource_sound_example : NameIsFree (codes "build") small_tables
create_resource_sound_example =
    (create_resource_sound 5 (machine (codes "10.0.0.9")) (build (codes "10.0.0.9")) start outcome.1
      made).1
