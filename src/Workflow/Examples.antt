-- ===== src/Workflow/Examples.antt =====
-- A service control, runs of the workflow, and concrete cases of the theorems on it.
use esp.Base.{◌≡◌, ◌≢◌, refl, true, false, [], ◌∷◌, bytes}
use esp.StatusCode.Code
use esp.StatusCode.Names.{ok_status, is_ok}
use esp.RequestContext.{
  Service, RequestContext, get_method_call_info, http_method_with_override, extract_api_key,
  first_found,
}
use esp.RequestContext.Examples.{library, context}
use esp.Workflow.{run, run_one_handler}
use esp.Workflow.Control.{
  ServiceControl, completed, null_pointer, check_service_control, quota_control,
  with_check_response, control_failure,
}
use esp.Workflow.Order.{Check}
use esp.Workflow.Admission.{Earlier, run_checks, IsAdmitted, completed-IsAdmitted, run_checks-safe}

-- A client that accepts every key, and whose quota server does not answer.
abbrev client : ServiceControl
client = record {
  check = λ info. (
    ok_status,
    record {
      is_api_key_valid = true;
      service_is_activated = true;
      consumer_project_id = bytes "consumer";
    },
  );
  quota = λ info. control_failure Code.unavailable [];
}

abbrev fine : Check RequestContext
fine c = (ok_status, c)

abbrev all_fine : Earlier
all_fine = record {
  fetch_service_account_token = fine;
  fetch_instance_identity_token = fine;
  check_auth = fine;
  check_security_rules = fine;
}

abbrev admitted_context : RequestContext
admitted_context = record context {
  check_response_info = record {
    is_api_key_valid = true;
    service_is_activated = true;
    consumer_project_id = bytes "consumer";
  };
  backend_headers = (bytes "X-Endpoint-API-Project-ID", bytes "consumer") ∷ [];
}

run_fine : run_checks library client all_fine context ≡ completed ok_status admitted_context
unfolding run_checks run run_one_handler check_service_control quota_control with_check_response
    is_ok get_method_call_info http_method_with_override extract_api_key first_found
run_fine = refl

completed-IsAdmitted_example : IsAdmitted library client all_fine context admitted_context
unfolding is_ok
completed-IsAdmitted_example =
    completed-IsAdmitted library client all_fine context admitted_context ok_status run_fine refl

run_checks-safe_example : run_checks library client all_fine context ≢ null_pointer
run_checks-safe_example = run_checks-safe library client all_fine context refl

-- Without a service control, the quota of a method that has a cost is asked of a null pointer.
abbrev uncontrolled : Service
uncontrolled = record library { has_service_control = false }

run_uncontrolled : run_checks uncontrolled client all_fine context ≡ null_pointer
unfolding run_checks run run_one_handler check_service_control quota_control is_ok
    get_method_call_info http_method_with_override
run_uncontrolled = refl
