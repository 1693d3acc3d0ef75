-- ===== src/ServiceControl/Convert.antt =====
-- The answers of service control: `ConvertCheckResponse` and `ConvertAllocateQuotaResponse` of
-- src/api_manager/service_control/proto.cc.
use esp.Base.{
  is_empty, refl, ℕ, ◌≡◌, ◌⊎◌, inl, inr, Bool, true, false, List, [], ◌∷◌, ◌++◌, Str, bytes, ◌==◌,
  ◌&&◌, if◌then◌else◌, arith,
}
use esp.Base.Int.{pos}
use esp.StatusCode.Code
use esp.StatusCode.Names.{Status, ok_status, is_ok, internal, decimal}
use esp.RequestContext.{CheckResponseInfo, Service, RequestContext, default_check_response}
use esp.RequestContext.Operation.{OperationInfo, fill_operation_info}
use esp.ServiceControl.LogEntry.{create_timestamp}
use esp.ServiceControl.Fill.{common_operation, quota_consumer_of}
use esp.Workflow.Control.{control_failure, with_check_response}

-- `CheckError::Code`; `other` is any code that the proxy does not know.
pub data CheckError : Type 0 where
  not_found api_key_not_found api_key_expired api_key_invalid service_not_activated : CheckError
  resource_exhausted permission_denied ip_address_blocked referer_blocked : CheckError
  client_app_blocked api_target_blocked project_deleted project_invalid : CheckError
  billing_disabled security_policy_violated invalid_credential location_policy_violated : CheckError
  consumer_invalid namespace_lookup_unavailable service_status_unavailable : CheckError
  billing_status_unavailable quota_check_unavailable : CheckError
  cloud_resource_manager_backend_unavailable security_policy_backend_unavailable : CheckError
  location_policy_backend_unavailable : CheckError
  other : ℕ → CheckError

-- `CheckResponse`: the number of the consumer's project, 0 for none, and the errors.
pub record CheckResponse : Type 0 where
  pub project_number : ℕ
  pub check_errors : List CheckError

abbrev pub project_of : ℕ → Str
project_of number = if number == 0 then [] else decimal number

abbrev pub invalid : Str → Status
invalid message = control_failure Code.invalid_argument message

abbrev pub denied : Str → Status
denied message = control_failure Code.permission_denied message

-- The status for an error, for the name of the service.
abbrev pub error_status : Str → CheckError → Status
error_status service not_found =
    invalid (bytes "Consumer project not found. Please pass a valid project.")
error_status service api_key_not_found =
    invalid (bytes "API key not found. Please pass a valid API key.")
error_status service api_key_expired = invalid (bytes "API key expired. Please renew the API key.")
error_status service api_key_invalid =
    invalid (bytes "API key not valid. Please pass a valid API key.")
error_status service service_not_activated =
    denied (bytes "API " ++ service ++ bytes " is not enabled for the consumer project.")
error_status service resource_exhausted = denied (bytes "Quota check failed.")
error_status service permission_denied =
    denied (bytes "Consumer project doesn't have access to the API " ++ service)
error_status service ip_address_blocked =
    denied (bytes "IP address is blocked by the API key with restrictions.")
error_status service referer_blocked =
    denied (bytes "Referer address is blocked by the API key with restrictions.")
error_status service client_app_blocked =
    denied (bytes "Client application is blocked by the API key with restrictions.")
error_status service api_target_blocked =
    denied (bytes "API " ++ service ++ bytes " is invalid for the consumer project.")
error_status service project_deleted = denied (bytes "Project has been deleted.")
error_status service project_invalid =
    invalid (bytes "Consumer project not valid. Please pass a valid project.")
error_status service billing_disabled =
    denied (bytes "API " ++ service ++ bytes " has billing disabled. Please enable it.")
error_status service security_policy_violated =
    denied (bytes "Request is not allowed as per security policies.")
error_status service invalid_credential =
    denied (bytes "The credential in the request can not be verified")
error_status service location_policy_violated =
    denied (bytes "Request is not allowed as per location policies.")
error_status service consumer_invalid = denied (
    bytes
      "The consumer from the API key does not represent a valid consumer folder or organization")
error_status service namespace_lookup_unavailable = ok_status
error_status service service_status_unavailable = ok_status
error_status service billing_status_unavailable = ok_status
error_status service quota_check_unavailable = ok_status
error_status service cloud_resource_manager_backend_unavailable = ok_status
error_status service security_policy_backend_unavailable = ok_status
error_status service location_policy_backend_unavailable = ok_status
error_status service (other code) =
    control_failure Code.internal
      (bytes "Request blocked due to unsupported error code: " ++ decimal code)

-- What an error sets of the response's information.
abbrev pub note_error : CheckError → CheckResponseInfo → CheckResponseInfo
note_error api_key_not_found info = record info { is_api_key_valid = false }
note_error api_key_expired info = record info { is_api_key_valid = false }
note_error api_key_invalid info = record info { is_api_key_valid = false }
note_error service_not_activated info = record info { service_is_activated = false }
note_error _ info = info

abbrev pub convert_errors : Str → List CheckError → CheckResponseInfo → Status × CheckResponseInfo
convert_errors service [] info = (ok_status, info)
convert_errors service (error ∷ errors) info = (error_status service error, note_error error info)

-- `ConvertCheckResponse`, of a new `CheckResponseInfo`.
unfoldable pub convert_check_response : Str → CheckResponse → Status × CheckResponseInfo
convert_check_response service r =
    convert_errors service r.check_errors
      (record default_check_response { consumer_project_id = project_of r.project_number })

-- `QuotaError::Code`.
pub data QuotaError : Type 0 where
  unspecified exhausted billing_not_active deleted key_invalid key_expired : QuotaError
  unknown_error : ℕ → QuotaError

abbrev pub quota_failure : ℕ → Str → Status
quota_failure code description = record {
  code = pos code;
  message = description;
  error_cause = internal;
}

abbrev pub quota_status : QuotaError → Str → Status
quota_status unspecified description = ok_status
quota_status exhausted description = quota_failure Code.resource_exhausted description
quota_status billing_not_active description = quota_failure Code.permission_denied description
quota_status deleted description = quota_failure Code.invalid_argument description
quota_status key_invalid description = quota_failure Code.invalid_argument description
quota_status key_expired description = quota_failure Code.invalid_argument description
quota_status (unknown_error code) description = quota_failure Code.internal description

-- `ConvertAllocateQuotaResponse`, at the errors of the response with their descriptions.
abbrev pub convert_allocate_quota_response : List (QuotaError × Str) → Status
convert_allocate_quota_response [] = ok_status
convert_allocate_quota_response ((error, description) ∷ errors) = quota_status error description

-- The errors that take the key from a request.
abbrev pub rejects_key : CheckError → Bool
rejects_key api_key_not_found = true
rejects_key api_key_expired = true
rejects_key api_key_invalid = true
rejects_key service_not_activated = true
rejects_key _ = false

-- The first error decides.
abbrev pub are_rejecting : List CheckError → Bool
are_rejecting [] = false
are_rejecting (error ∷ errors) = rejects_key error

-- The first error has taken the key, and the request is refused.
abbrev IsRejected : List CheckError → Status × CheckResponseInfo → Type 0
IsRejected errors (status, info) =
    (are_rejecting errors ≡ true)
    × (is_ok status ≡ false)
    × (info.is_api_key_valid && info.service_is_activated ≡ false)

abbrev IsKept : List CheckError → Status × CheckResponseInfo → Type 0
IsKept errors (status, info) =
    (are_rejecting errors ≡ false) × (info.is_api_key_valid && info.service_is_activated ≡ true)

note_error-cases :
    (name : Str) (error : CheckError) (info : CheckResponseInfo)
    → info.is_api_key_valid ≡ true
    → info.service_is_activated ≡ true
    → ((rejects_key error ≡ false)
        × ((note_error error info).is_api_key_valid && (note_error error info).service_is_activated
            ≡ true))
      ⊎ ((rejects_key error ≡ true)
          × (is_ok (error_status name error) ≡ false)
          × ((note_error error info).is_api_key_valid
                && (note_error error info).service_is_activated
              ≡ false))
unfolding is_ok
note_error-cases name error info valid activated = ground (arith, valid, activated)

convert-cases :
    (name : Str) (errors : List CheckError) (info : CheckResponseInfo)
    → info.is_api_key_valid ≡ true
    → info.service_is_activated ≡ true
    → IsKept errors (convert_errors name errors info)
      ⊎ IsRejected errors (convert_errors name errors info)
convert-cases name [] info valid activated = inl (refl, rw (valid, activated) refl)
convert-cases name (error ∷ errors) info valid activated =
    note_error-cases name error info valid activated

fill_operation_info-named :
    (service : Service) (c : RequestContext) (info : CheckResponseInfo)
    → info.is_api_key_valid && info.service_is_activated ≡ true
    → (fill_operation_info service (with_check_response info c)).api_key ≡ c.api_key
unfolding fill_operation_info with_check_response
fill_operation_info-named service c info kept = ground (arith, kept)

fill_operation_info-unnamed :
    (service : Service) (c : RequestContext) (info : CheckResponseInfo)
    → info.is_api_key_valid && info.service_is_activated ≡ false
    → (fill_operation_info service (with_check_response info c)).api_key ≡ []
unfolding fill_operation_info with_check_response
fill_operation_info-unnamed service c info rejected = ground (arith, rejected)

-- The producer's project, where there is one.
abbrev pub project_consumer : Str → Str
project_consumer project = if is_empty project then [] else bytes "project:" ++ project

-- The consumer of the operation of a report and of a quota request without a key.
consumers_unnamed :
    (info : OperationInfo) (now : ℕ)
    → info.api_key ≡ []
    → ((common_operation info (create_timestamp now)).consumer_id ≡ [])
      × (quota_consumer_of info ≡ project_consumer info.producer_project_id)
unfolding common_operation
consumers_unnamed info now e = (rw e refl, rw e refl)

-- After a response of service control, either its first error, if any, does not reject the API key,
-- and the operation of the request still has the key; or it rejects the key or finds the service not
-- activated for it, and then the request is refused, the key of the operation is empty, the operation
-- of a report has no consumer, and a quota request takes the producer's project for one.
pub convert_check_response_lem :
    (service : Service) (c : RequestContext) (name : Str) (now : ℕ) (r : CheckResponse)
    → let (status, info) = convert_check_response name r in
      let operation = fill_operation_info service (with_check_response info c) in
      ((are_rejecting r.check_errors ≡ false) × (operation.api_key ≡ c.api_key))
      ⊎ ((are_rejecting r.check_errors ≡ true)
          × (is_ok status ≡ false)
          × (operation.api_key ≡ [])
          × ((common_operation operation (create_timestamp now)).consumer_id ≡ [])
          × (quota_consumer_of operation ≡ project_consumer operation.producer_project_id))
unfolding convert_check_response
convert_check_response_lem service c name now r =
    let start = record default_check_response {
      consumer_project_id = project_of r.project_number;
    } in
    let info = (convert_errors name r.check_errors start).1 in
    elim (convert-cases name r.check_errors start refl refl) [
      | inl (kept, valid) ↦ inl (kept, fill_operation_info-named service c info valid)
      | inr (rejected, refused, invalid_key) ↦
          let unnamed = fill_operation_info-unnamed service c info invalid_key in
          let (reported, quota) = consumers_unnamed _ now unnamed in
          inr (rejected, refused, unnamed, reported, quota)
    ]
