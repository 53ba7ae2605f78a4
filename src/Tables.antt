-- ===== src/Tables.antt =====
-- The tables of function pointers of harness/jinterop.c (`build_env`, `build_vm`): the slot of a
-- function is its place among the members of the structure in jni.h, whose names are the parameter
-- `fields`. A call through the pointer of a slot is a call of the function named here.
use wetype_ime_linux.Base.{
  ℕ, suc, List, [], ◌∷◌, Option, none, some, ◌==◌, ltb, if◌then◌else◌, str_eqb, codes,
}

-- The functions `F_…` of the environment, and `stub_default`.
pub data EnvFunction : Type 0 where
  stub_default : EnvFunction
  get_version find_class exception_occurred exception_clear exception_check push_local_frame :
      EnvFunction
  pop_local_frame new_global_ref delete_global_ref delete_local_ref new_local_ref : EnvFunction
  ensure_local_capacity alloc_object new_object get_object_class get_method_id : EnvFunction
  call_object_method call_int_method call_void_method get_field_id get_object_field : EnvFunction
  get_boolean_field get_int_field get_long_field get_float_field set_object_field : EnvFunction
  set_boolean_field set_int_field set_long_field set_float_field get_static_method_id : EnvFunction
  call_static_void_method get_static_field_id get_static_object_field get_static_int_field :
      EnvFunction
  new_string_utf get_string_utf_chars release_string_utf_chars get_array_length : EnvFunction
  new_object_array get_object_array_element set_object_array_element new_byte_array : EnvFunction
  get_byte_array_elements release_byte_array_elements set_byte_array_region register_natives :
      EnvFunction
  get_java_vm get_direct_buffer_address get_object_ref_type : EnvFunction

-- The functions `V_…` of the virtual machine.
pub data VmFunction : Type 0 where
  vm_stub destroy_java_vm attach_current_thread detach_current_thread get_env : VmFunction

-- `ENV_SLOTS`, and the size of `vmtab`.
abbrev pub env_slots : ℕ
env_slots = 300

abbrev pub vm_slots : ℕ
vm_slots = 32

-- The place of a member, from place `i` on.
unfoldable pub index_of : ℕ → List ℕ → List (List ℕ) → Option ℕ
index_of i name [] = none
index_of i name (x ∷ xs) =
    let rest = index_of (suc i) name xs in if str_eqb x name then some i else rest

module _ {F : Type 0} where
  -- `tab` and `tab_v`.
  unfoldable pub tab : ℕ → ℕ → F → (ℕ → F) → ℕ → F
  tab size i fn t j = if ltb i size then (if i == j then fn else t j) else t j

  -- The calls of `tab`, in order; a name that the structure lacks does not compile.
  unfoldable pub mount : ℕ → List (List ℕ) → List (List ℕ × F) → (ℕ → F) → ℕ → F
  mount size fields [] t = t
  mount size fields ((name, fn) ∷ ms) t = elim (index_of 0 name fields) [
    | none ↦ mount size fields ms t
    | some i ↦ mount size fields ms (tab size i fn t)
  ]

abbrev pub env_mounts : List (List ℕ × EnvFunction)
env_mounts =
    (codes "GetVersion", get_version)
    ∷ (codes "FindClass", find_class)
    ∷ (codes "ExceptionOccurred", exception_occurred)
    ∷ (codes "ExceptionClear", exception_clear)
    ∷ (codes "ExceptionCheck", exception_check)
    ∷ (codes "PushLocalFrame", push_local_frame)
    ∷ (codes "PopLocalFrame", pop_local_frame)
    ∷ (codes "NewGlobalRef", new_global_ref)
    ∷ (codes "DeleteGlobalRef", delete_global_ref)
    ∷ (codes "DeleteLocalRef", delete_local_ref)
    ∷ (codes "NewLocalRef", new_local_ref)
    ∷ (codes "EnsureLocalCapacity", ensure_local_capacity)
    ∷ (codes "AllocObject", alloc_object)
    ∷ (codes "NewObject", new_object)
    ∷ (codes "NewObjectV", new_object)
    ∷ (codes "NewObjectA", new_object)
    ∷ (codes "GetObjectClass", get_object_class)
    ∷ (codes "GetMethodID", get_method_id)
    ∷ (codes "CallObjectMethod", call_object_method)
    ∷ (codes "CallObjectMethodV", call_object_method)
    ∷ (codes "CallObjectMethodA", call_object_method)
    ∷ (codes "CallIntMethod", call_int_method)
    ∷ (codes "CallIntMethodV", call_int_method)
    ∷ (codes "CallIntMethodA", call_int_method)
    ∷ (codes "CallVoidMethod", call_void_method)
    ∷ (codes "CallVoidMethodV", call_void_method)
    ∷ (codes "CallVoidMethodA", call_void_method)
    ∷ (codes "GetFieldID", get_field_id)
    ∷ (codes "GetObjectField", get_object_field)
    ∷ (codes "GetBooleanField", get_boolean_field)
    ∷ (codes "GetIntField", get_int_field)
    ∷ (codes "GetLongField", get_long_field)
    ∷ (codes "GetFloatField", get_float_field)
    ∷ (codes "SetObjectField", set_object_field)
    ∷ (codes "SetBooleanField", set_boolean_field)
    ∷ (codes "SetIntField", set_int_field)
    ∷ (codes "SetLongField", set_long_field)
    ∷ (codes "SetFloatField", set_float_field)
    ∷ (codes "GetStaticMethodID", get_static_method_id)
    ∷ (codes "CallStaticVoidMethod", call_static_void_method)
    ∷ (codes "CallStaticVoidMethodV", call_static_void_method)
    ∷ (codes "CallStaticVoidMethodA", call_static_void_method)
    ∷ (codes "GetStaticFieldID", get_static_field_id)
    ∷ (codes "GetStaticObjectField", get_static_object_field)
    ∷ (codes "GetStaticIntField", get_static_int_field)
    ∷ (codes "NewStringUTF", new_string_utf)
    ∷ (codes "GetStringUTFChars", get_string_utf_chars)
    ∷ (codes "ReleaseStringUTFChars", release_string_utf_chars)
    ∷ (codes "GetArrayLength", get_array_length)
    ∷ (codes "NewObjectArray", new_object_array)
    ∷ (codes "GetObjectArrayElement", get_object_array_element)
    ∷ (codes "SetObjectArrayElement", set_object_array_element)
    ∷ (codes "NewByteArray", new_byte_array)
    ∷ (codes "GetByteArrayElements", get_byte_array_elements)
    ∷ (codes "ReleaseByteArrayElements", release_byte_array_elements)
    ∷ (codes "SetByteArrayRegion", set_byte_array_region)
    ∷ (codes "RegisterNatives", register_natives)
    ∷ (codes "GetJavaVM", get_java_vm)
    ∷ (codes "GetDirectBufferAddress", get_direct_buffer_address)
    ∷ (codes "GetObjectRefType", get_object_ref_type)
    ∷ []

-- `build_env`.
unfoldable pub build_env : List (List ℕ) → ℕ → EnvFunction
build_env fields = mount env_slots fields env_mounts (λ i. stub_default)

abbrev pub vm_mounts : List (List ℕ × VmFunction)
vm_mounts =
    (codes "DestroyJavaVM", destroy_java_vm)
    ∷ (codes "AttachCurrentThread", attach_current_thread)
    ∷ (codes "DetachCurrentThread", detach_current_thread)
    ∷ (codes "GetEnv", get_env)
    ∷ (codes "AttachCurrentThreadAsDaemon", attach_current_thread)
    ∷ []

-- `build_vm`.
unfoldable pub build_vm : List (List ℕ) → ℕ → VmFunction
build_vm fields = mount vm_slots fields vm_mounts (λ i. vm_stub)
